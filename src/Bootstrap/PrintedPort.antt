-- ===== src/Bootstrap/PrintedPort.antt =====
-- The port: main of cmd/goet/main.go prints it on the remote host, readPort of internal/client/ssh.go reads it.
use goet.Prelude.{
  ℕ, ◌^◌, ◌<◌, ◌≡◌, refl, ap, ◌∙◌, arith, [], ◌∷◌, ◌++◌, append_assoc, Bool, false, Option, none,
  some, lt→ltb,
}
use goet.Prelude.{◌==◌, length}
use goet.Protocol.Message.{pos}
use goet.Text.{Bytes, is_space, IsUncut, trim_uncut}
use goet.Text.Decimal.{itoa, atoi-itoa, itoa-IsUncut, length-itoa}
use goet.Bootstrap.{
  Printed, line, line_from, cut_line, first_line, drop_return, scan_line, max_token_size, port,
  port_of, read_port,
}

-- fmt.Println(s.Port)
abbrev pub print_port : ℕ → Bytes
print_port n = itoa n ++ (b'\n' ∷ [])

not_newline : (c : ℕ) → is_space c ≡ false → ((c == b'\n') ≡ false) × ((c == b'\r') ≡ false)
not_newline c h = ground arith

newline_first : (o : Option Bytes) → line_from b'\n' o ≡ some []
newline_first none = refl
newline_first (some l) = refl

pub cut_line_word : (w more : Bytes) → IsUncut is_space w → cut_line (w ++ (b'\n' ∷ more)) ≡ some w
unfolding cut_line
cut_line_word [] more h = newline_first (cut_line more)
cut_line_word (c ∷ w) more h = rw (cut_line_word w more h.1, (not_newline c h.0).0) refl

drop_return_word : (w : Bytes) → IsUncut is_space w → drop_return w ≡ w
unfolding drop_return
drop_return_word [] h = refl
drop_return_word (c ∷ []) h = rw ((not_newline c h.0).1) refl
drop_return_word (c ∷ d ∷ w) h = ap (λ t. c ∷ t) (drop_return_word (d ∷ w) h.1)

scan_line_word :
    (w more : Bytes) (failed : Bool)
    → IsUncut is_space w
    → length w < max_token_size
    → scan_line (record { bytes = (w ++ (b'\n' ∷ [])) ++ more; failed = failed }) ≡ line w
unfolding scan_line
scan_line_word w more failed h short =
    let p : Printed = record { bytes = (w ++ (b'\n' ∷ [])) ++ more; failed = failed } in
    ap (first_line p) (ap cut_line (append_assoc w (b'\n' ∷ []) more) ∙ cut_line_word w more h)
    ∙ rw (lt→ltb (length w) max_token_size short) (ap line (drop_return_word w h))

-- The port that the session prints is the port that the client reads, whatever is printed after it.
pub read_port-print_port :
    (n : ℕ) (more : Bytes) (failed : Bool)
    → n < 2 ^ 63
    → read_port (some (record { bytes = print_port n ++ more; failed = failed })) ≡ port (pos n)
unfolding read_port
read_port-print_port n more failed small =
    let plain = itoa-IsUncut n in
    ap port_of (scan_line_word (itoa n) more failed plain (omega (arith, length-itoa n)))
    ∙ rw (trim_uncut is_space (itoa n) plain, atoi-itoa n small) refl
