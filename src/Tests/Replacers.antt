-- ===== src/Tests/Replacers.antt =====
-- Runs of src/storage/bufferpool/replacer.hpp.
use tadis.Prelude.{◌≡◌, refl, true, some, [], ◌∷◌, arith}
use tadis.Storage.Replacer.{LruReplacer, put, remove, touch}
use tadis.Storage.Replacer.Chain.{values, without, drop_last, get_last?}
use tadis.Storage.Replacer.Chain
use tadis.Storage.Replacer.Drain.{Drained, victims_lem}
use tadis.Storage.Replacer.Refine.{
  iter, IsConsistent, Refines, put_values, put-Refines, touch_misplaces,
}

-- The values 7 and 3 in a replacer of two, the value 7 more recent.
abbrev two_frames : LruReplacer
two_frames = record {
  lru_list = (1, 7) ∷ (0, 3) ∷ [];
  next_node = 2;
  dir = λ t. iter (Chain.find t ((1, 7) ∷ (0, 3) ∷ []));
  capacity = 2;
}

two_frames-IsConsistent : IsConsistent two_frames
unfolding Chain.find
two_frames-IsConsistent = record {
  chain = (omega arith, refl, (omega arith, refl, tt));
  dir = λ t. refl;
  bounded = omega arith;
  positive = omega arith;
}

put-Refines_example :
    (r' : LruReplacer) × (put two_frames 5 ≡ some r')
    × Refines two_frames r' (put_values 2 5 (values two_frames.lru_list))
put-Refines_example = put-Refines two_frames two_frames-IsConsistent 5

touch_misplaces_example :
    (r' : LruReplacer) × (r'' : LruReplacer) × (touch two_frames 3 ≡ some (r', true))
    × (remove r' 3 ≡ some r'')
    × (values r''.lru_list ≡ 3 ∷ without 3 (values ((0, 3) ∷ [])))
touch_misplaces_example =
    touch_misplaces two_frames 3 0 1 7 ((0, 3) ∷ []) two_frames-IsConsistent refl (ground arith)
      (unfold Chain.find in refl)

victims_lem_example : Drained two_frames (values two_frames.lru_list)
victims_lem_example = victims_lem two_frames two_frames-IsConsistent
