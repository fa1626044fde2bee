-- ===== src/Pipeline/Tests.antt =====
-- Small runs of the three pipelines.
use go_examples.Base.{
  ℕ, ◌≤◌, ◌<◌, ◌≡◌, refl, true, false, List, [], ◌∷◌, ◌++◌, map, none, some, arith, replicate,
  count,
}
use go_examples.Pipeline.{holding, exited, squared}
use go_examples.Pipeline.Linear
use go_examples.Pipeline.Linear.{Line}
use go_examples.Pipeline.Order.{linear_order}
use go_examples.Pipeline.Leaks.{goroutines, CanStep, no_leaks}
use go_examples.Pipeline.FanIn
use go_examples.Pipeline.FanIn.{
  Lane, new_lane, Net, lanes_step, lane_step, generated, passed, forwarded, square_exit,
  forwarder_exit, at,
}
use go_examples.Pipeline.FanIn.Merged.{merged_squares}

abbrev whole : List Linear.Event
whole =
    Linear.generated ∷ Linear.squared_sent ∷ Linear.generated ∷ Linear.gen_exit
    ∷ Linear.squared_sent ∷ Linear.square_exit ∷ []

abbrev finished : Line
finished = record {
  nums = [];
  gen_exited = true;
  square = exited;
  taken = 4 ∷ 9 ∷ [];
  cancelled = false;
}

whole-run : Linear.run whole (Linear.start (2 ∷ 3 ∷ [])) ≡ some finished
unfolding Linear.run Linear.step Linear.start
whole-run = refl

linear_order_instance :
    ((rest : List ℕ) × ((4 ∷ 9 ∷ []) ++ rest ≡ 4 ∷ 9 ∷ []))
    × (true ≡ true → false ≡ false → finished.taken ≡ map squared (2 ∷ 3 ∷ []))
linear_order_instance = linear_order (2 ∷ 3 ∷ []) whole finished whole-run

-- The consumer takes one value and cancels while the square holds the next one.
abbrev early : List Linear.Event
early = Linear.generated ∷ Linear.squared_sent ∷ Linear.generated ∷ Linear.cancel ∷ []

abbrev stopped : Line
stopped = record {
  nums = 4 ∷ [];
  gen_exited = false;
  square = holding 9;
  taken = 4 ∷ [];
  cancelled = true;
}

early-run : Linear.run early (Linear.start (2 ∷ 3 ∷ 4 ∷ [])) ≡ some stopped
unfolding Linear.run Linear.step Linear.start
early-run = refl

no_leaks_example :
    (4 ≤ 9)
    × (0 < goroutines stopped → CanStep stopped)
    × (true ≡ true → Linear.step Linear.squared_sent stopped ≡ none)
no_leaks_example = no_leaks (2 ∷ 3 ∷ 4 ∷ []) early stopped early-run

-- Two squares: the second number overtakes the first.
abbrev merging : List FanIn.Event
merging =
    at 0 generated
    ∷ at 1 generated
    ∷ FanIn.gen_exit
    ∷ at 1 passed
    ∷ at 1 forwarded
    ∷ at 0 passed
    ∷ at 0 forwarded
    ∷ at 0 square_exit
    ∷ at 1 square_exit
    ∷ at 0 forwarder_exit
    ∷ at 1 forwarder_exit
    ∷ FanIn.close
    ∷ []

abbrev merged : Net
merged = record {
  nums = [];
  gen_exited = true;
  lanes = replicate 2 (record { square = exited; forwarder = exited });
  closed = true;
  taken = 9 ∷ 4 ∷ [];
  cancelled = false;
}

merging-run : FanIn.run merging (FanIn.start (2 ∷ 3 ∷ []) 2) ≡ some merged
unfolding FanIn.run FanIn.step FanIn.start lanes_step lane_step
merging-run = refl

merged_squares_example : count 9 (9 ∷ 4 ∷ []) ≡ count 9 (map squared (2 ∷ 3 ∷ []))
merged_squares_example =
    merged_squares (2 ∷ 3 ∷ []) 2 merging merged (omega arith) merging-run refl refl 9
