-- ===== src/Transport/Demux/Life.antt =====
-- A tcpConn of internal/transport/tcp.go from its making on: before StartDemux, ReadControl and ReadData both
-- read the TLS stream itself, which is how the handshake is read; after it, they take from the channels.
use goet.Prelude.{◌≡◌, refl, sym, ap, ◌∙◌}
use goet.Prelude.{List, [], ◌∷◌, ◌++◌, append_assoc, Bool, true, false, ◌&&◌}
use goet.Prelude.{if◌then◌else◌}
use goet.Session.{Received}
use goet.Transport.Demux
use goet.Transport.Demux.{Trace, begin, trace_step, is_ready}
use goet.Transport.Demux.Order.{IsRouted, Reaches-IsRouted, step-IsRouted}

-- `incoming` is what the stream has yet to give, `serial` what was read before StartDemux, and `started` is demuxStarted.
pub record Conn : Type 0 where
  pub incoming : List Received
  pub serial : List Received
  pub started : Bool
  pub trace : Trace

-- newTCPConn
abbrev pub new_tcp_conn : List Received → Conn
new_tcp_conn incoming = record { incoming = incoming; serial = []; started = false; trace = begin }

-- A call of ReadControl, ReadData or StartDemux, and of the goroutine: it reads and routes, or gives up; and Close.
pub data Event : Type 0 where
  call_read_control call_read_data call_start_demux : Event
  demux_reads demux_gives_up close : Event

abbrev pub has_some : List Received → Bool
has_some [] = false
has_some (r ∷ rs) = true

abbrev pub can_route : List Received → Trace → Bool
can_route [] t = false
can_route (r ∷ rs) t = is_ready (Demux.arrives r) t.conn

-- A read waits for the stream or for the channel.
unfoldable pub can_happen : Event → Conn → Bool
can_happen call_read_control k =
    if k.started then is_ready Demux.read_control k.trace.conn else has_some k.incoming
can_happen call_read_data k =
    if k.started then is_ready Demux.read_data k.trace.conn else has_some k.incoming
can_happen call_start_demux k = true
can_happen demux_reads k = k.started && can_route k.incoming k.trace
can_happen demux_gives_up k = k.started && is_ready Demux.gives_up k.trace.conn
can_happen close k = true

abbrev pub read_serial : List Received → Conn → Conn
read_serial [] k = k
read_serial (r ∷ rs) k = record k { incoming = rs; serial = k.serial ++ (r ∷ []) }

abbrev pub route_next : List Received → Conn → Conn
route_next [] k = k
route_next (r ∷ rs) k = record k { incoming = rs; trace = trace_step (Demux.arrives r) k.trace }

abbrev pub with_trace : Demux.Event → Conn → Conn
with_trace ev k = record k { trace = trace_step ev k.trace }

unfoldable pub happen : Event → Conn → Conn
happen call_read_control k =
    if k.started then with_trace Demux.read_control k else read_serial k.incoming k
happen call_read_data k =
    if k.started then with_trace Demux.read_data k else read_serial k.incoming k
happen call_start_demux k = record k { started = true }
happen demux_reads k = route_next k.incoming k
happen demux_gives_up k = with_trace Demux.gives_up k
happen close k = with_trace Demux.close k

-- What can come about on a stream that gives `all`.
pub data Reaches (all : List Received) : Conn → Type 0 where
  here : Reaches all (new_tcp_conn all)
  next :
      (k : Conn) (ev : Event) → Reaches all k → can_happen ev k ≡ true → Reaches all (happen ev k)

-- Nothing of the stream is lost between the handshake and the goroutine.
pub record IsWhole (all : List Received) (k : Conn) : Type 0 where
  pub stream : k.serial ++ (k.trace.arrived ++ k.incoming) ≡ all
  pub untouched : k.started ≡ false → k.trace.arrived ≡ []
  pub routed : IsRouted k.trace

both : (a b : Bool) → (a && b) ≡ true → (a ≡ true) × (b ≡ true)
both true b h = (refl, h)
both false b h = cc

module _ (all : List Received) where
  read_serial-IsWhole :
      (rs : List Received) (k : Conn)
      → k.incoming ≡ rs
      → k.started ≡ false
      → IsWhole all k
      → IsWhole all (read_serial rs k)
  read_serial-IsWhole [] k at off h = h
  read_serial-IsWhole (r ∷ rs) k at off h =
      let none_yet = h.untouched off in
      record {
        stream =
            append_assoc k.serial (r ∷ []) (k.trace.arrived ++ rs)
            ∙ ap (λ t. k.serial ++ (r ∷ (t ++ rs))) none_yet
            ∙ ap (λ t. k.serial ++ t) (sym at)
            ∙ ap (λ t. k.serial ++ (t ++ k.incoming)) (sym none_yet)
            ∙ h.stream;
        untouched = h.untouched;
        routed = h.routed;
      }

  with_trace-IsWhole :
      (ev : Demux.Event) (k : Conn)
      → (trace_step ev k.trace).arrived ≡ k.trace.arrived
      → is_ready ev k.trace.conn ≡ true
      → IsWhole all k
      → IsWhole all (with_trace ev k)
  with_trace-IsWhole ev k same ready h = record {
    stream = ap (λ t. k.serial ++ (t ++ k.incoming)) same ∙ h.stream;
    untouched = λ off. same ∙ h.untouched off;
    routed = step-IsRouted k.trace ev h.routed ready;
  }

  route_next-IsWhole :
      (rs : List Received) (k : Conn)
      → k.incoming ≡ rs
      → k.started ≡ true
      → can_route rs k.trace ≡ true
      → IsWhole all k
      → IsWhole all (route_next rs k)
  unfolding trace_step
  route_next-IsWhole [] k at on ready h = h
  route_next-IsWhole (r ∷ rs) k at on ready h = record {
    stream =
        ap (λ t. k.serial ++ t)
          (append_assoc k.trace.arrived (r ∷ []) rs ∙ ap (λ t. k.trace.arrived ++ t) (sym at))
        ∙ h.stream;
    untouched = λ off. cc;
    routed = step-IsRouted k.trace (Demux.arrives r) h.routed ready;
  }

  called-IsWhole :
      (ev : Demux.Event) (k : Conn) (b : Bool)
      → k.started ≡ b
      → (trace_step ev k.trace).arrived ≡ k.trace.arrived
      → (if b then is_ready ev k.trace.conn else has_some k.incoming) ≡ true
      → IsWhole all k
      → IsWhole all (if b then with_trace ev k else read_serial k.incoming k)
  called-IsWhole ev k true on same ready h = with_trace-IsWhole ev k same ready h
  called-IsWhole ev k false off same ready h = read_serial-IsWhole k.incoming k refl off h

  happen-IsWhole :
      (k : Conn) (ev : Event) → IsWhole all k → can_happen ev k ≡ true → IsWhole all (happen ev k)
  unfolding happen can_happen trace_step
  happen-IsWhole k call_read_control h ready =
      called-IsWhole Demux.read_control k k.started refl refl ready h
  happen-IsWhole k call_read_data h ready =
      called-IsWhole Demux.read_data k k.started refl refl ready h
  happen-IsWhole k call_start_demux h ready = record {
    stream = h.stream;
    untouched = λ off. cc;
    routed = h.routed;
  }
  happen-IsWhole k demux_reads h ready =
      let (on, routes) = both k.started (can_route k.incoming k.trace) ready in
      route_next-IsWhole k.incoming k refl on routes h
  happen-IsWhole k demux_gives_up h ready =
      let (on, gives_up) = both k.started (is_ready Demux.gives_up k.trace.conn) ready in
      with_trace-IsWhole Demux.gives_up k refl gives_up h
  happen-IsWhole k close h ready = with_trace-IsWhole Demux.close k refl (unfold is_ready in refl) h

  -- Whatever the order of the calls of ReadControl, ReadData, StartDemux and Close, and of the goroutine that reads and
  -- routes: what was read before StartDemux, what has arrived for the readers after it, and what the stream has yet to give
  -- are the stream, in order. After StartDemux each reader gets the messages of its kind that arrive, each once and in order,
  -- and no channel holds more than 16.
  pub Reaches-IsWhole : (k : Conn) → Reaches all k → IsWhole all k
  Reaches-IsWhole _ here = record {
    stream = refl;
    untouched = λ off. refl;
    routed = Reaches-IsRouted begin Demux.here;
  }
  Reaches-IsWhole _ (next k ev before ready) = happen-IsWhole k ev (Reaches-IsWhole k before) ready
