-- ===== src/Djlc/Heap/Laws.antt =====
-- The operations of the heap keep its order and its values.
use djiang_oss_public.Prelude.{
  ℕ, zero, suc, ◌+◌, ◌-◌, ◌*◌, ◌/◌, ◌^◌, ◌<◌, ◌≤◌, ◌≡◌, refl, sym, ap, ◌∙◌, inl, inr, Bool, true,
  false, some, arith, ltb, leb, ◌==◌, if◌then◌else◌, Bool-cases, update,
}
use djiang_oss_public.Prelude.Int.{ℤ, eqb_ℤ}
use djiang_oss_public.Counts.{count, count-same}
use djiang_oss_public.Djlc.Heap.{
  IntHeap, heap_cmp, parent, heap_grow, heap_store, heap_push, heap_pop, heap_peek, heapify_loop,
  heap_heapify,
}
use djiang_oss_public.Djlc.Heap.Order.{
  OrderedFrom, OrderedFrom-top, heap_cmp_at, bit, occurrences, occurrences-update,
}
use djiang_oss_public.Djlc.Heap.Up.{IsRising, bubble_up_lem}
use djiang_oss_public.Djlc.Heap.Down.{settle_lem}

-- No child should be above its parent, and the array has room for the elements.
pub record IsHeap (h : IntHeap) : Type 0 where
  pub ordered : OrderedFrom h.is_max 0 h.data_of h.size
  pub fits : h.size ≤ h.capacity

-- How often a heap holds a value.
abbrev pub holds : ℤ → IntHeap → ℕ
holds v h = occurrences v h.data_of h.size

count_next : (t : ℕ → Bool) (n : ℕ) → count t (n + 1) ≡ bit (t n) + count t n
count_next t n =
    let next : n + 1 ≡ suc n = omega arith in ap (λ (k : ℕ). count t k) next ∙ ground arith

-- `h'` is the heap `h` with one more value.
abbrev pub Pushed : IntHeap → ℤ → IntHeap → Type 0
Pushed h val h' =
    IsHeap h' × (h'.size ≡ h.size + 1) × ((v : ℤ) → holds v h' ≡ holds v h + bit (eqb_ℤ val v))

heap_store_lem :
    (h : IntHeap) (val : ℤ)
    → IsHeap h
    → h.size < h.capacity
    → (h' : IntHeap) × (heap_store val h ≡ some (true, h')) × Pushed h val h'
unfolding heap_store
heap_store_lem h val w room =
    let n = h.size in
    let has_room : ltb h.size h.capacity ≡ true = ground arith in
    let rising : IsRising h.is_max val h.data_of (n + 1) n = record {
      others = λ j pos_j lt ne ne_p. w.ordered j pos_j (omega (arith, lt, ne)) (omega arith);
      below = λ j pos_j lt e. absurd (omega (arith, pos_j, lt, e));
      across = λ j pos_n pos_j lt e. absurd (omega (arith, pos_j, lt, e));
    } in
    let (d, i, e, o, same) =
      bubble_up_lem (n + 1) h.is_max val h.data_of (n + 1) n (omega arith) (omega arith) rising in
    (
      record h { data_of = update d i val; size = n + 1 },
      rw (has_room, e) refl,
      (
        record { ordered = o; fits = omega (arith, room) },
        refl,
        λ v. omega (
          arith,
          same v,
          occurrences-update v h.data_of (n + 1) n val (omega arith),
          count_next (λ j. eqb_ℤ (h.data_of j) v) n,
        ),
      ),
    )

-- The elements after the array has grown.
abbrev moved : (ℕ → ℤ) → IntHeap → ℕ → ℤ
moved memory h i = if ltb i h.capacity then h.data_of i else memory i

moved-same :
    (memory : ℕ → ℤ) (h : IntHeap) (i : ℕ) → i < h.capacity → moved memory h i ≡ h.data_of i
moved-same memory h i lt = ground arith

moved-IsHeap :
    (memory : ℕ → ℤ) (h : IntHeap)
    → IsHeap h
    → IsHeap (record h { data_of = moved memory h; capacity = h.capacity * 2 })
moved-IsHeap memory h w = record {
  ordered = λ j pos_j lt le.
      heap_cmp_at h.is_max (moved-same memory h j (omega (arith, lt, w.fits)))
        (moved-same memory h (parent j) (omega (arith, lt, w.fits))) (w.ordered j pos_j lt le);
  fits = omega (arith, w.fits);
}

moved-holds :
    (memory : ℕ → ℤ) (h : IntHeap)
    → IsHeap h
    → (v : ℤ) → occurrences v (moved memory h) h.size ≡ holds v h
moved-holds memory h w v =
    count-same (λ j. eqb_ℤ (moved memory h j) v) (λ j. eqb_ℤ (h.data_of j) v) h.size
      (λ j lt. ap (λ y. eqb_ℤ y v) (moved-same memory h j (omega (arith, lt, w.fits))))

-- On a heap in order, of a capacity of at least 1 whose double is below 2^31, with memory for a
-- larger array, a push succeeds and leaves a heap in order of the same values and the new one, each
-- as often as before; where the heap is full and there is no memory, the push fails and the heap is
-- as it was.
pub heap_push_lem :
    (memory : ℕ → ℤ) (h : IntHeap) (val : ℤ)
    → IsHeap h
    → 0 < h.capacity
    → h.capacity * 2 < 2 ^ 31
    → (h' : IntHeap) × (heap_push true memory h val ≡ some (true, h'))
      × Pushed h val h'
      × (h.capacity ≤ h.size → heap_push false memory h val ≡ some (false, h))
unfolding heap_push heap_grow
heap_push_lem memory h val w pos_c small =
    let bounded : leb (2 ^ 31) (h.capacity * 2) ≡ false = ground arith in
    elim (Bool-cases (leb h.capacity h.size)) [
      | inl full ↦
          let grown : IntHeap = record h { data_of = moved memory h; capacity = h.capacity * 2 } in
          let (h', e, (w', size', more)) =
            heap_store_lem grown val (moved-IsHeap memory h w) (omega (arith, w.fits, pos_c)) in
          (
            h',
            rw (full, bounded) e,
            (
              w',
              size',
              λ v. more v ∙ ap (λ (t : ℕ). t + bit (eqb_ℤ val v)) (moved-holds memory h w v),
            ),
            λ le. rw (full, bounded) refl,
          )
      | inr room ↦
          let (h', e, done) = heap_store_lem h val w (ground arith) in
          (h', rw room e, done, λ le. absurd (ground arith))
    ]

-- Popping from a heap in order that holds at least one value and at most 2^30 ends without overflow
-- and returns its top, which heap_peek returns too and which no value of the heap should be above,
-- and leaves a heap in order of the others, each as often as before.
pub heap_pop_lem :
    (h : IntHeap)
    → IsHeap h
    → 0 < h.size
    → h.size ≤ 2 ^ 30
    → (h' : IntHeap) × (heap_pop h ≡ some (some (h.data_of 0), h'))
      × IsHeap h'
      × (h'.size + 1 ≡ h.size)
      × (heap_peek h ≡ some (h.data_of 0))
      × ((j : ℕ) → j < h.size → heap_cmp h.is_max (h.data_of j) (h.data_of 0) ≡ false)
      × ((v : ℤ) → holds v h' + bit (eqb_ℤ (h.data_of 0) v) ≡ holds v h)
unfolding heap_pop heap_peek
heap_pop_lem h w pos_n small =
    let n = h.size - 1 in
    let some_left : (h.size == 0) ≡ false = ground arith in
    let size_n : n + 1 ≡ h.size = omega (arith, pos_n) in
    let all : (v : ℤ) → bit (eqb_ℤ (h.data_of n) v) + occurrences v h.data_of n ≡ holds v h = λ v.
      sym (count_next (λ j. eqb_ℤ (h.data_of j) v) n)
      ∙ ap (λ (k : ℕ). occurrences v h.data_of k) size_n in
    let top : (j : ℕ) → j < h.size → heap_cmp h.is_max (h.data_of j) (h.data_of 0) ≡ false =
      λ j lt. OrderedFrom-top (suc j) h.is_max h.data_of h.size j w.ordered (omega arith) lt in
    elim (Bool-cases (n == 0)) [
      | inl one ↦
          let zero_n : n ≡ 0 = ground arith in
          let last_top : (v : ℤ) → bit (eqb_ℤ (h.data_of n) v) ≡ bit (eqb_ℤ (h.data_of 0) v) =
            λ v. ap (λ (k : ℕ). bit (eqb_ℤ (h.data_of k) v)) zero_n in
          (
            record h { size = n },
            rw (some_left, one) refl,
            record {
              ordered = λ j pos_j lt le. absurd (omega (arith, lt, zero_n));
              fits = omega (arith, w.fits);
            },
            size_n,
            rw some_left refl,
            top,
            λ v. omega (arith, all v, last_top v),
          )
      | inr more ↦
          let (d, e, o, same) =
            settle_lem h.is_max 0 (h.data_of n) h.data_of n (omega (arith, small)) (ground arith)
              (λ j pos_j lt le. w.ordered j pos_j (omega (arith, lt)) (omega arith)) in
          (
            record h { data_of = d; size = n },
            rw (some_left, more, e) refl,
            record { ordered = o; fits = omega (arith, w.fits) },
            size_n,
            rw some_left refl,
            top,
            λ v. omega (
              arith,
              same v,
              all v,
              occurrences-update v h.data_of n 0 (h.data_of n) (ground arith),
            ),
          )
    ]

heapify_loop_lem :
    (k : ℕ) (m : Bool) (d : ℕ → ℤ) (n : ℕ)
    → n ≤ 2 ^ 30
    → k ≤ n
    → OrderedFrom m k d n
    → (d' : ℕ → ℤ) × (heapify_loop k m n d ≡ some d')
      × OrderedFrom m 0 d' n
      × ((v : ℤ) → occurrences v d' n ≡ occurrences v d n)
unfolding heapify_loop
heapify_loop_lem zero m d n small le o = (d, refl, o, λ v. refl)
heapify_loop_lem (suc i) m d n small le o =
    let (d1, e1, o1, same1) = settle_lem m i (d i) d n small (omega (arith, le)) o in
    let (d2, e2, o2, same2) = heapify_loop_lem i m d1 n small (omega (arith, le)) o1 in
    (
      d2,
      rw e1 e2,
      o2,
      λ v. omega (arith, same2 v, same1 v, occurrences-update v d n i (d i) (omega (arith, le))),
    )

-- On any array of at most 2^30 elements that fit the capacity, the call ends without overflow and
-- leaves a heap in order of the same size and the same values, each as often as before.
pub heap_heapify_lem :
    (h : IntHeap)
    → h.size ≤ h.capacity
    → h.size ≤ 2 ^ 30
    → (h' : IntHeap) × (heap_heapify h ≡ some h')
      × IsHeap h'
      × (h'.size ≡ h.size)
      × ((v : ℤ) → holds v h' ≡ holds v h)
unfolding heap_heapify
heap_heapify_lem h fits small =
    let (d, e, o, same) =
      heapify_loop_lem (h.size / 2) h.is_max h.data_of h.size small (omega arith)
        (λ j pos_j lt le. absurd (omega (arith, pos_j, lt, le))) in
    (record h { data_of = d }, rw e refl, record { ordered = o; fits = fits }, refl, same)
