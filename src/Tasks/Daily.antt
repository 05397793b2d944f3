-- ===== src/Tasks/Daily.antt =====
-- StartDaily and untilNextRun of internal/tasks/notify_cleanup.go. Three o'clock of a time's day,
-- time.Date, is a parameter.
use bs_notify_hub.Prelude.{
  ℕ, ◌+◌, ◌-◌, ◌*◌, ◌<◌, ◌≤◌, ◌≡◌, refl, ap, ◌∙◌, Bool, Option, none, some, List, [], ◌∷◌, arith,
  ltb, if_cases_at, if◌then◌else◌,
}
use bs_notify_hub.Prelude.Int.{ℤ, pos, sub_ℕ, second}
use bs_notify_hub.World.{World, Env}
use bs_notify_hub.Tasks.{CleanupError, run_once}
use bs_notify_hub.Tasks.End.{run_once-ends}

abbrev pub day : ℕ
day = 24 * (3600 * second)

-- The wait, as a natural number.
abbrev pub InADay : ℤ → Type 0
InADay d = (n : ℕ) × ((d ≡ pos n) × ((0 < n) × (n ≤ day)))

sub_ℕ-InADay : (a b : ℕ) → b < a → a ≤ b + day → InADay (sub_ℕ a b)
sub_ℕ-InADay a b h k = (a - b, (ground (arith, h), (omega (arith, h), omega (arith, k))))

module _ (three_of_day : ℕ → ℕ) where
  -- time.Duration is not at its bounds here.
  unfoldable pub until_next_run : ℕ → ℤ
  until_next_run now =
      let next = three_of_day now in if ltb now next then sub_ℕ next now else sub_ℕ (next + day) now

  -- The timer waits for some time, and for no longer than a day, if three o'clock of the day is less
  -- than a day away.
  pub until_next_run-InADay :
      (now : ℕ)
      → three_of_day now ≤ now + day
      → now < three_of_day now + day
      → InADay (until_next_run now)
  unfolding until_next_run
  until_next_run-InADay now h k =
      if_cases_at InADay (ltb now (three_of_day now)) _ _
        (λ e. sub_ℕ-InADay (three_of_day now) now (ground (arith, e)) h)
        (λ e. sub_ℕ-InADay (three_of_day now + day) now k (ground (arith, e)))

-- What the select of a turn receives: the context is cancelled, or the timer fires, and RunOnce runs
-- in these surroundings.
pub data Wake : Type 0 where
  cancelled : Wake
  timer : Env → (ℕ → Bool) → Wake

-- A run that fails is only logged.
abbrev pub and_next :
    Option ((ℕ × Option CleanupError) × World) → (World → Option World) → Option World
and_next none next = none
and_next (some (r, w)) next = next w

unfoldable pub start_daily : List Wake → World → Option World
unfolding run_once
start_daily [] w = some w
start_daily (cancelled ∷ wakes) w = some w
start_daily (timer env done ∷ wakes) w = and_next (run_once env done w) (start_daily wakes)

-- Every turn of the loop comes to an end.
pub start_daily-ends :
    (wakes : List Wake) (w : World) → (w' : World) × (start_daily wakes w ≡ some w')
unfolding start_daily
start_daily-ends [] w = (w, refl)
start_daily-ends (cancelled ∷ wakes) w = (w, refl)
start_daily-ends (timer env done ∷ wakes) w =
    let (res, e) = run_once-ends env done w in
    let (w', k) = start_daily-ends wakes res.1 in
    (w', ap (λ r. and_next r (start_daily wakes)) e ∙ k)
