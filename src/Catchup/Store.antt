-- ===== src/Catchup/Store.antt =====
-- Store of internal/catchup/buffer.go against the queue's, and what it leaves behind.
use goet.Prelude.{ℕ, zero, suc, ◌+◌, ◌-◌, ◌<◌, ◌≤◌, ◌≡◌, refl, sym, ap, ap₂, ◌∙◌, inl, inr, ◌⊎◌}
use goet.Prelude.{List, [], ◌∷◌, ◌++◌, arith, length, length-replicate, Bool, true, false}
use goet.Prelude.{ltb, leb, if◌then◌else◌, Bool-cases, ltb→le, le→ltb, lt→ltb}
use goet.Catchup.{
  Entry, no_entry, Buffer, evict_oldest, is_over, make_room, make_slot, store, new, new_sized,
  slots,
}
use goet.Protocol.Message.{ℤ, pos, negsuc}
use goet.Catchup.Window.{length-window}
use goet.Catchup.Spec
use goet.Catchup.Spec.{total, fit, one_slot}
use goet.Catchup.Refine.{
  contents, IsValid, total-append, contents-evict_oldest, evict_oldest-IsValid, contents-append,
  append-IsValid,
}

-- `b'` is a valid buffer with the limits of `b`, and holds `es`.
pub record Holds (b : Buffer) (es : List Entry) (b' : Buffer) : Type 0 where
  pub valid : IsValid b'
  pub holds : contents b' ≡ es
  pub capacity : b'.capacity ≡ b.capacity
  pub max_size : b'.max_size ≡ b.max_size

pub length-contents : (b : Buffer) → length (contents b) ≡ b.count
length-contents b = length-window b.capacity b.entries _ 0 b.count

module _ (max_size len : ℕ) where
  fit_keeps :
      (es : List Entry) → (0 < length es → total es + len ≤ max_size) → fit max_size len es ≡ es
  unfolding fit
  fit_keeps [] h = refl
  fit_keeps (e ∷ es) h = rw (le→ltb max_size (total (e ∷ es) + len) (h (omega arith)))

  fit_drops :
      (es : List Entry)
      → 0 < length es
      → max_size < total es + len
      → fit max_size len es ≡ fit max_size len (Spec.rest es)
  unfolding fit
  fit_drops [] p h = absurd (omega arith)
  fit_drops (e ∷ es) p h = rw (lt→ltb max_size (total (e ∷ es) + len) h)

over_means :
    (len : ℕ) (b : Buffer) → is_over len b ≡ true → (0 < b.count) × (b.max_size < b.size + len)
over_means len b h = ground arith

under_means :
    (len : ℕ) (b : Buffer) → is_over len b ≡ false → 0 < b.count → b.size + len ≤ b.max_size
under_means len b h p = ground arith

evict_oldest-Holds :
    (b : Buffer) → IsValid b → 0 < b.count → Holds b (Spec.rest (contents b)) (evict_oldest b)
evict_oldest-Holds b v h = record {
  valid = evict_oldest-IsValid b v h;
  holds = contents-evict_oldest b v h;
  capacity = unfold evict_oldest in refl;
  max_size = unfold evict_oldest in refl;
}

Holds-self : (b : Buffer) (es : List Entry) → IsValid b → contents b ≡ es → Holds b es b
Holds-self b es v e = record { valid = v; holds = e; capacity = refl; max_size = refl }

Holds-trans : (b c d : Buffer) (es fs : List Entry) → Holds b es c → Holds c fs d → Holds b fs d
Holds-trans b c d es fs h k = record {
  valid = k.valid;
  holds = k.holds;
  capacity = k.capacity ∙ h.capacity;
  max_size = k.max_size ∙ h.max_size;
}

Holds-rest : (b c : Buffer) (es fs : List Entry) → Holds b es c → es ≡ fs → Holds b fs c
Holds-rest b c es fs h e = record {
  valid = h.valid;
  holds = h.holds ∙ e;
  capacity = h.capacity;
  max_size = h.max_size;
}

count-evict_oldest : (b : Buffer) → (evict_oldest b).count ≡ b.count - 1
unfolding evict_oldest
count-evict_oldest b = refl

make_room_step :
    (len : ℕ) (b next : Buffer) (over : Bool)
    → is_over len b ≡ over
    → IsValid b
    → (0 < b.count → Holds (evict_oldest b) (fit b.max_size len (contents (evict_oldest b))) next)
    → Holds b (fit b.max_size len (contents b)) (if over then next else b)
make_room_step len b next true e v more =
    let p = over_means len b e in
    Holds-rest b next _ _
      (Holds-trans b (evict_oldest b) next _ _ (evict_oldest-Holds b v p.0) (more p.0))
      (ap (fit b.max_size len) (contents-evict_oldest b v p.0)
        ∙ sym (
            fit_drops b.max_size len (contents b) (omega (arith, length-contents b))
              (omega (arith, v.sized))))
make_room_step len b next false e v more = Holds-self b _ v (
    sym (
      fit_keeps b.max_size len (contents b)
        (λ p. omega (arith, under_means len b e, length-contents b, v.sized))))

-- The loop drops entries until the payload fits, at as much fuel as there are entries.
make_room-Holds :
    (fuel len : ℕ) (b : Buffer)
    → IsValid b
    → b.count ≤ fuel
    → Holds b (fit b.max_size len (contents b)) (make_room fuel len b)
unfolding make_room evict_oldest
make_room-Holds zero len b v h =
    Holds-self b _ v
      (sym (fit_keeps b.max_size len (contents b) (λ p. absurd (omega (arith, length-contents b)))))
make_room-Holds (suc fuel) len b v h =
    make_room_step len b (make_room fuel len (evict_oldest b)) (is_over len b) refl v λ p.
      make_room-Holds fuel len (evict_oldest b) (evict_oldest-IsValid b v p)
        (omega (arith, count-evict_oldest b))

make_slot-Holds :
    (b : Buffer)
    → IsValid b
    → Holds b (one_slot b.capacity (contents b)) (make_slot b)
      × ((make_slot b).count < (make_slot b).capacity)
make_slot-Holds b v = elim (Bool-cases (leb b.capacity b.count)) [
  | inl full ↦
      let some_held : 0 < b.count = ground (arith, v.head_in) in
      rw (length-contents b, full)
        (evict_oldest-Holds b v some_held, unfold evict_oldest in omega (arith, v.count_in))
  | inr free ↦ rw (length-contents b, free) (Holds-self b _ v refl, ground arith)
]

-- Store acts on the entries held as the queue's store, and keeps the representation valid and its
-- limits.
pub store-Holds :
    (b : Buffer) (seq : ℕ) (payload : List ℕ)
    → IsValid b
    → Holds b
        (Spec.store b.max_size b.capacity (record { seq = seq; payload = payload }) (contents b))
        (store seq payload b)
unfolding store Spec.store
store-Holds b seq payload v =
    let made = make_room-Holds b.count (length payload) b v (omega arith) in
    let c : Buffer = make_room b.count (length payload) b in
    let slot = make_slot-Holds c made.valid in
    let d : Buffer = make_slot c in
    let kept : contents d ≡ one_slot b.capacity (fit b.max_size (length payload) (contents b)) =
      slot.0.holds ∙ ap₂ one_slot made.capacity made.holds in
    record {
      valid = append-IsValid d slot.0.valid seq payload slot.1;
      holds =
          contents-append d slot.0.valid seq payload slot.1
          ∙ ap (λ es. es ++ (record { seq = seq; payload = payload } ∷ [])) kept;
      capacity = slot.0.capacity ∙ made.capacity;
      max_size = slot.0.max_size ∙ made.max_size;
    }

fit_bound :
    (max_size len : ℕ) (es : List Entry)
    → (fit max_size len es ≡ []) ⊎ (total (fit max_size len es) + len ≤ max_size)
unfolding fit
fit_bound max_size len [] = inl refl
fit_bound max_size len (e ∷ es) = elim (Bool-cases (ltb max_size (total (e ∷ es) + len))) [
  | inl over ↦ rw over (fit_bound max_size len es)
  | inr under ↦ rw under (inr (ltb→le _ _ under))
]

total-one_slot : (capacity : ℕ) (es : List Entry) → total (one_slot capacity es) ≤ total es
total-one_slot capacity [] = ground arith
total-one_slot capacity (e ∷ es) = ground arith

one_slot_nil : (capacity : ℕ) (e : Entry) → length (one_slot capacity [] ++ (e ∷ [])) ≡ 1
one_slot_nil capacity e = ground arith

slot_bound :
    (max_size capacity : ℕ) (e : Entry) (es : List Entry)
    → (length (Spec.store max_size capacity e es) ≡ 1)
      ⊎ (total (Spec.store max_size capacity e es) ≤ max_size)
unfolding Spec.store
slot_bound max_size capacity e es =
    let kept : List Entry = fit max_size (length e.payload) es in
    let slim : List Entry = one_slot capacity kept in
    elim (fit_bound max_size (length e.payload) es) [
      | inl none_left ↦ inl (rw none_left (one_slot_nil capacity e))
      | inr fits ↦ inr (omega (arith, total-append slim (e ∷ []), total-one_slot capacity kept))
    ]

bound_of_contents :
    (b : Buffer) {max_size : ℕ}
    → IsValid b
    → (length (contents b) ≡ 1) ⊎ (total (contents b) ≤ max_size)
    → (b.count ≡ 1) ⊎ (b.size ≤ max_size)
bound_of_contents b v (inl one) = inl (omega (arith, length-contents b))
bound_of_contents b v (inr small) = inr (omega (arith, v.sized))

-- After a Store the bytes held are within the limit, or the entry just stored is the only one.
pub store_bound :
    (b : Buffer) (seq : ℕ) (payload : List ℕ)
    → IsValid b
    → ((store seq payload b).count ≡ 1) ⊎ ((store seq payload b).size ≤ b.max_size)
store_bound b seq payload v =
    let h = store-Holds b seq payload v in
    let e : Entry = record { seq = seq; payload = payload } in
    bound_of_contents (store seq payload b) h.valid
      (rw h.holds (slot_bound b.max_size b.capacity e (contents b)))

IsValid-new_sized : (n : ℕ) → IsValid (new_sized n)
unfolding new_sized
IsValid-new_sized n = record {
  room = length-replicate (slots n) no_entry;
  head_in = omega arith;
  count_in = omega arith;
  sized = refl;
}

new_sized_lem :
    (n : ℕ)
    → 0 < n
    → IsValid (new_sized n)
      × (contents (new_sized n) ≡ [])
      × (256 ≤ (new_sized n).capacity)
      × (0 < (new_sized n).max_size)
new_sized_lem n h = (
  IsValid-new_sized n,
  unfold new_sized in refl,
  unfold new_sized in omega arith,
  unfold new_sized in h,
)

-- New gives a valid empty buffer, of at least 256 slots and with a positive limit.
pub new-IsValid :
    (z : ℤ)
    → IsValid (new z) × (contents (new z) ≡ []) × (256 ≤ (new z).capacity) × (0 < (new z).max_size)
unfolding new
new-IsValid (pos zero) = new_sized_lem _ (omega arith)
new-IsValid (pos (suc n)) = new_sized_lem (suc n) (omega arith)
new-IsValid (negsuc n) = new_sized_lem _ (omega arith)
