-- ===== src/Djlc/Cbuf/Average.antt =====
-- The moving average and the sum of its window (djlc/include/circular_buffer.h).
use djiang_oss_public.Prelude.{
  ◌≡◌, refl, sym, ap, subst, ◌∙◌, Bool, true, false, some, List, [], ◌∷◌, ◌++◌,
}
use djiang_oss_public.Prelude.Int.{ℤ, pos, ◌+ℤ◌, ◌-ℤ◌, int_laws}
use djiang_oss_public.Djlc.Cbuf.{MovingAvg, cbuf_full, cbuf_push, is_int, moving_avg_next}
use djiang_oss_public.Djlc.Cbuf.Items.{IsCbuf, items, kept, lost, cbuf_push_lem}

abbrev pub total : List ℤ → ℤ
total [] = pos 0
total (x ∷ xs) = x +ℤ total xs

zero_plus : (a : ℤ) → a +ℤ pos 0 ≡ pos 0 +ℤ a
zero_plus a = grind int_laws

plus_assoc : (a b c : ℤ) → a +ℤ (b +ℤ c) ≡ (a +ℤ b) +ℤ c
plus_assoc a b c = grind int_laws

total-append : (xs : List ℤ) (v : ℤ) → total (xs ++ v ∷ []) ≡ total xs +ℤ v
total-append [] v = zero_plus v
total-append (x ∷ xs) v = ap (λ s. x +ℤ s) (total-append xs v) ∙ plus_assoc x (total xs) v

exchange : (x t v : ℤ) → (x +ℤ t) +ℤ (v -ℤ x) ≡ t +ℤ v
exchange x t v = grind int_laws

add_first : (t v : ℤ) → t +ℤ (v -ℤ pos 0) ≡ t +ℤ v
add_first t v = grind int_laws

total_kept :
    (full : Bool) (xs : List ℤ) (v : ℤ)
    → total xs +ℤ (v -ℤ lost full xs) ≡ total (kept full xs) +ℤ v
total_kept true [] v = add_first (pos 0) v
total_kept true (x ∷ xs) v = exchange x (total xs) v
total_kept false xs v = add_first (total xs) v

-- What `moving_avg_next` leaves: the value in the window, and the sum of the window.
next_sum :
    (ma : MovingAvg) (val : ℤ)
    → is_int (val -ℤ (cbuf_push val ma.buf).0) ≡ true
    → moving_avg_next val ma
      ≡ some (record {
        buf = (cbuf_push val ma.buf).1;
        sum = ma.sum +ℤ (val -ℤ (cbuf_push val ma.buf).0);
      })
unfolding moving_avg_next
next_sum ma val e = rw e refl

-- On a well-formed window whose sum is kept, a value whose difference to the element that it
-- displaces, or to 0, fits an int enters the window as on a circular buffer, and the sum kept is
-- again that of the window.
pub moving_avg_next_lem :
    (ma : MovingAvg) (val : ℤ)
    → IsCbuf ma.buf
    → ma.sum ≡ total (items ma.buf)
    → is_int (val -ℤ lost (cbuf_full ma.buf) (items ma.buf)) ≡ true
    → (ma' : MovingAvg) × (moving_avg_next val ma ≡ some ma')
      × IsCbuf ma'.buf
      × (items ma'.buf ≡ kept (cbuf_full ma.buf) (items ma.buf) ++ val ∷ [])
      × (ma'.sum ≡ total (items ma'.buf))
moving_avg_next_lem ma val v e fits =
    let (v', e', old) = cbuf_push_lem ma.buf val v in
    let full = cbuf_full ma.buf in
    let xs = items ma.buf in
    (
      record { buf = (cbuf_push val ma.buf).1; sum = ma.sum +ℤ (val -ℤ (cbuf_push val ma.buf).0) },
      next_sum ma val (subst (λ o. is_int (val -ℤ o) ≡ true) (sym old) fits),
      v',
      e',
      (λ i. e i +ℤ (val -ℤ old i))
          ∙ total_kept full xs val
          ∙ sym (total-append (kept full xs) val)
          ∙ ap total (sym e'),
    )
