-- ===== src/Tests/Sets.antt =====
-- A union-find structure, a graph, a hash map, and a heap.
use djiang_oss_public.Prelude.{
  ◌+◌, ◌≡◌, ◌↔◌, refl, Bool, true, Option, some, List, [], ◌∷◌, arith, ltb, if◌then◌else◌, ℕ, ◌≤◌,
  ◌<◌, false,
}
use djiang_oss_public.Prelude.Int.{ℤ, pos, eqb_ℤ}
use djiang_oss_public.Djlc.UnionFind.{UnionFind, uf_init, uf_count, uf_connected}
use djiang_oss_public.Djlc.UnionFind.Forest.{IsForest}
use djiang_oss_public.Djlc.UnionFind.Find.{Found, uf_find_lem}
use djiang_oss_public.Djlc.UnionFind.Partition.{root_count}
use djiang_oss_public.Djlc.UnionFind.Components.{Edge, unite_all, Connected, components_lem}
use djiang_oss_public.Djlc.Heap.{IntHeap, heap_cmp, heap_push, heap_pop, heap_peek, heap_heapify}
use djiang_oss_public.Djlc.Heap.Order.{bit}
use djiang_oss_public.Djlc.Heap.Laws.{
  IsHeap, Pushed, holds, heap_push_lem, heap_pop_lem, heap_heapify_lem,
}
use djiang_oss_public.Djlc.HashMap.{HashMap, zeroed, hm_put}
use djiang_oss_public.Djlc.HashMap.Put.Laws.{IsTable}
use djiang_oss_public.Djlc.HashMap.Map.{HasPut, hm_put_lem}

-- 0 hangs below 1, and 1 below 2.
abbrev chain : UnionFind
chain = record {
  parent = λ x. if ltb x 2 then x + 1 else x;
  rank = λ x. x;
  size = 4;
  components = 2;
}

chain-IsForest : IsForest chain
chain-IsForest = record { inside = λ x lt. ground arith; climbs = λ x lt ne. ground arith }

uf_find_example : Found 4 chain 0
uf_find_example = uf_find_lem chain 0 chain-IsForest (omega arith)

abbrev edges : List Edge
edges = (0, 1) ∷ (3, 1) ∷ []

components_example :
    (uf1 : UnionFind) × (uf2 : UnionFind) × (answer : Bool) × (unite_all edges
        (uf_init true true (λ i. 0) (λ i. 0) 4 chain).1
      ≡ some uf1)
    × (uf_count uf1 ≡ root_count uf1)
    × (uf_connected uf1.size uf1 0 3 ≡ some (answer, uf2))
    × ((answer ≡ true) ↔ Connected 4 edges 0 3)
components_example =
    components_lem 4 edges (λ i. 0) (λ i. 0) chain 0 3
      ((omega arith, omega arith), ((omega arith, omega arith), tt)) (omega arith) (omega arith)

abbrev table : HashMap
table = record { entries = λ i. zeroed; capacity = 4; size = 0 }

table-IsTable : IsTable table
table-IsTable = record {
  room = omega arith;
  small = omega arith;
  alive = λ j e. cc;
  counted = refl;
  probed = λ key i lt o e j le. cc;
}

hm_put_example :
    (old : Option ℤ) × (hm' : HashMap) × (hm_put table (pos 7) (pos 70) ≡ some (true, hm'))
    × HasPut table (pos 7) (pos 70) old hm'
hm_put_example = hm_put_lem table table-IsTable (pos 7) (pos 70) refl

-- The cells hold their indices: a heap with the least on top.
abbrev ascending : IntHeap
ascending = record { data_of = λ i. pos i; size = 3; capacity = 3; is_max = false }

ascending-IsHeap : IsHeap ascending
unfolding heap_cmp
ascending-IsHeap = record { ordered = λ j pos_j lt le. ground arith; fits = omega arith }

heap_push_example :
    (h' : IntHeap) × (heap_push true (λ i. pos 0) ascending (pos 1) ≡ some (true, h'))
    × Pushed ascending (pos 1) h'
    × (3 ≤ 3 → heap_push false (λ i. pos 0) ascending (pos 1) ≡ some (false, ascending))
heap_push_example =
    heap_push_lem (λ i. pos 0) ascending (pos 1) ascending-IsHeap (omega arith) (omega arith)

heap_pop_example :
    (h' : IntHeap) × (heap_pop ascending ≡ some (some (pos 0), h'))
    × IsHeap h'
    × (h'.size + 1 ≡ 3)
    × (heap_peek ascending ≡ some (pos 0))
    × ((j : ℕ) → j < 3 → heap_cmp false (pos j) (pos 0) ≡ false)
    × ((v : ℤ) → holds v h' + bit (eqb_ℤ (pos 0) v) ≡ holds v ascending)
heap_pop_example = heap_pop_lem ascending ascending-IsHeap (omega arith) (omega arith)

-- The same cells are no heap with the greatest on top.
abbrev unordered : IntHeap
unordered = record ascending { is_max = true }

heap_heapify_example :
    (h' : IntHeap) × (heap_heapify unordered ≡ some h')
    × IsHeap h'
    × (h'.size ≡ 3)
    × ((v : ℤ) → holds v h' ≡ holds v unordered)
heap_heapify_example = heap_heapify_lem unordered (omega arith) (omega arith)
