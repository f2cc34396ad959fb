-- ===== src/Examples/Binaries.antt =====
-- Tests of the binary index on three pairs (src/static_index/binary_index.h).
use index_zoo.Base.{
  arith, ℕ, ◌≡◌, refl, inl, inr, List, [], ◌∷◌, ◌++◌, some, done, Returns, pos, before_pos,
}
use index_zoo.Static.Entry.{KeyOffsetPair, IsSorted, IsBounds}
use index_zoo.Static.Search.{find_internal, Located, find_internal-Located}
use index_zoo.Static.Binary.{BinaryIndex, find}
use index_zoo.Static.Binary.Heap.{Right, range_of-root}
use index_zoo.Static.Binary.Narrow.{IsBuilt}
use index_zoo.Static.Binary.Laws.{find_wrong}

abbrev pub pair : ℕ → ℕ → KeyOffsetPair
pair k o = record { key = k; offset = o }

abbrev pub three : List KeyOffsetPair
three = pair 10 100 ∷ pair 20 200 ∷ pair 30 300 ∷ []

pub three-IsSorted : IsSorted three
three-IsSorted = (((omega arith, (omega arith, tt)), ((omega arith, tt), (tt, tt))))

pub three-IsBounds : IsBounds three 10 30
three-IsBounds = record {
  first = pair 10 100;
  last = pair 30 300;
  at_first = refl;
  at_last = refl;
  min_is = refl;
  max_is = refl;
}

abbrev flat : BinaryIndex
flat = record {
  num_layers = 0;
  container = three;
  key_min = 10;
  key_max = 30;
  inner_nodes = [];
  inner_node_count = 0;
}

abbrev layered : BinaryIndex
layered = record flat { num_layers = 1; inner_nodes = some 20 ∷ []; inner_node_count = 1 }

flat-IsBuilt : IsBuilt flat
flat-IsBuilt = record {
  layers = record { small = omega arith; count_is = omega arith; fewer = omega arith };
  sorted = three-IsSorted;
  bounds = three-IsBounds;
  right = λ q below. absurd below;
}

root_cell : Right three (some 20 ∷ []) 0
root_cell = record { pair = pair 20 200; at_middle = rw (range_of-root 3) refl; in_cell = refl }

layered-IsBuilt : IsBuilt layered
layered-IsBuilt = record {
  layers = record { small = omega arith; count_is = omega arith; fewer = omega arith };
  sorted = three-IsSorted;
  bounds = three-IsBounds;
  right = λ q below. elim below [
    | inl root ↦ rw root root_cell
    | inr deeper ↦ elim deeper [ inl nowhere ↦ absurd nowhere | inr nowhere ↦ absurd nowhere ]
  ];
}

find_wrong_example : find layered 15 [] ≡ done ([] ++ 100 ∷ [])
find_wrong_example =
    find_wrong layered layered-IsBuilt 15 [] (pair 10 100) (pair 20 200) refl refl refl refl
      (omega arith) (omega arith)

find_internal-Located_example :
    Returns (find_internal 4 three 20 (pos 0) (before_pos 3)) (Located three 20 0 3)
find_internal-Located_example =
    find_internal-Located three 20 three-IsSorted 4 0 3 (omega arith) (omega arith) (omega arith)
      (inl (omega arith)) (omega arith)
