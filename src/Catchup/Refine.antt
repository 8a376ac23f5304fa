-- ===== src/Catchup/Refine.antt =====
-- The ring of internal/catchup/buffer.go holds a queue, and each operation acts on it as the
-- queue's does.
use goet.Prelude.{ℕ, suc, ◌+◌, ◌-◌, ◌%◌, ◌<◌, ◌≤◌, ◌≡◌, sym, ap, ap₂, ◌∙◌}
use goet.Prelude.{List, [], ◌∷◌, ◌++◌, arith, length, get_or, set, length-set, get_or-set_self}
use native.Mathlib.Nat.{add-zero, mod-eq_of_lt}
use goet.Catchup.{Entry, no_entry, Buffer, tail, evict_oldest, append}
use goet.Catchup.Window.{
  window, window-shift, window-set, window-snoc, window_pos, tail_evict, tail_push, head_place,
  tail_bound,
}
use goet.Catchup.Spec
use goet.Catchup.Spec.{total, fit, one_slot, newer}

abbrev pub contents : Buffer → List Entry
contents b = window b.capacity b.entries (tail b) 0 b.count

-- The representation invariant: every index is in range, and `size` counts the bytes held.
pub record IsValid (b : Buffer) : Type 0 where
  pub room : length b.entries ≡ b.capacity
  pub head_in : b.head < b.capacity
  pub count_in : b.count ≤ b.capacity
  pub sized : b.size ≡ total (contents b)

pub total-append : (xs ys : List Entry) → total (xs ++ ys) ≡ total xs + total ys
total-append [] ys = omega arith
total-append (x ∷ xs) ys = omega (arith, total-append xs ys)

module _ (b : Buffer) (v : IsValid b) where
  pub t-lt : tail b < b.capacity
  t-lt = tail_bound b.capacity b.head b.count v.head_in

  zero_place : (tail b + 0) % b.capacity ≡ tail b
  zero_place = ap (λ k. k % b.capacity) (add-zero (tail b)) ∙ mod-eq_of_lt t-lt

  pub contents_pos :
      0 < b.count
      → contents b
        ≡ get_or b.entries (tail b) no_entry ∷ window b.capacity b.entries (tail b) 1 (b.count - 1)
  contents_pos h =
      window_pos b.capacity b.entries (tail b) 0 b.count h
      ∙ ap (λ k. get_or b.entries k no_entry ∷ window b.capacity b.entries (tail b) 1 (b.count - 1))
          zero_place

  -- evictOldest drops the oldest entry.
  pub contents-evict_oldest : 0 < b.count → contents (evict_oldest b) ≡ Spec.rest (contents b)
  unfolding evict_oldest
  contents-evict_oldest h =
      ap (λ k. window b.capacity (set b.entries (tail b) no_entry) k 0 (b.count - 1))
        (tail_evict b.capacity b.head b.count v.head_in h v.count_in)
      ∙ window-shift b.capacity (set b.entries (tail b) no_entry) (tail b) 0 (b.count - 1) t-lt
          (omega (arith, v.count_in))
      ∙ ap (λ k. window b.capacity (set b.entries k no_entry) (tail b) 1 (b.count - 1))
          (sym zero_place)
      ∙ window-set b.capacity b.entries no_entry (tail b) 0 1 (b.count - 1) t-lt
          (omega (arith, v.count_in)) (omega arith) (omega (arith, v.count_in))
      ∙ sym (ap Spec.rest (contents_pos h))

  pub evict_oldest-IsValid : 0 < b.count → IsValid (evict_oldest b)
  evict_oldest-IsValid h = record {
    room = unfold evict_oldest in length-set b.entries (tail b) no_entry ∙ v.room;
    head_in = unfold evict_oldest in v.head_in;
    count_in = unfold evict_oldest in omega (arith, v.count_in);
    sized = rw (contents-evict_oldest h) (
        unfold evict_oldest in
        rw (contents_pos h) (omega (arith, v.sized, ap total (contents_pos h))));
  }

  module _ (seq : ℕ) (payload : List ℕ) (free : b.count < b.capacity) where
    abbrev pushed : Entry
    pushed = record { seq = seq; payload = payload }

    place : (tail b + b.count) % b.capacity ≡ b.head
    place = head_place b.capacity b.head b.count v.head_in v.count_in

    abbrev written : List Entry
    written = set b.entries b.head pushed

    window-written :
        window b.capacity written (tail b) 0 b.count
        ≡ window b.capacity b.entries (tail b) 0 b.count
    window-written =
        ap (λ k. window b.capacity (set b.entries k pushed) (tail b) 0 b.count) (sym place)
        ∙ window-set b.capacity b.entries pushed (tail b) b.count 0 b.count t-lt (omega arith)
            (omega arith) free

    last-written : get_or written ((tail b + b.count) % b.capacity) no_entry ≡ pushed
    last-written =
        ap (λ k. get_or written k no_entry) place
        ∙ get_or-set_self b.entries b.head pushed no_entry (omega (arith, v.room, v.head_in))

    -- The write at the head adds an entry at the end.
    pub contents-append : contents (append seq payload b) ≡ contents b ++ (pushed ∷ [])
    contents-append =
        let one_more : b.count + 1 ≡ suc b.count = omega arith in
        ap (λ k. window b.capacity written k 0 (b.count + 1))
          (tail_push b.capacity b.head b.count v.head_in free)
        ∙ ap (λ n. window b.capacity written (tail b) 0 n) one_more
        ∙ window-snoc b.capacity written (tail b) 0 b.count b.count (omega arith)
        ∙ ap₂ (λ ws e. ws ++ (e ∷ [])) window-written last-written

    pub append-IsValid : IsValid (append seq payload b)
    append-IsValid = record {
      room = length-set b.entries b.head pushed ∙ v.room;
      head_in = omega (arith, v.head_in);
      count_in = omega arith;
      sized = rw contents-append (omega (arith, v.sized, total-append (contents b) (pushed ∷ [])));
    }
