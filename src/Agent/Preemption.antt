-- ===== src/Agent/Preemption.antt =====
-- `PreemptionDetector` of mesh/agent/preemption.py. Shares of the CPU are in thousandths.
use cluster_mesh.Prelude.{
  ℕ, ◌+◌, zero, suc, ◌≡◌, Bool, true, false, ◌&&◌, ◌||◌, List, [], ◌∷◌, ◌++◌, arith, leb, ltb, refl,
  if◌then◌else◌,
}

-- What the check reads of a `ResourceSnapshot`.
pub record ResourceSnapshot : Type 0 where
  pub user_active : Bool
  pub cpu_utilization : ℕ

-- The texts "user_active" and "cpu_spike:…%" of the source.
pub data Reason : Type 0 where
  user_is_active : Reason
  cpu_spike : (cpu_utilization : ℕ) → Reason

pub record PreemptionDetector : Type 0 where
  pub cpu_threshold : ℕ
  pub consecutive_triggers : ℕ
  pub high_cpu_streak : ℕ
  pub last_triggered : Bool

abbrev next_streak : ResourceSnapshot → PreemptionDetector → ℕ
next_streak s d = if leb d.cpu_threshold s.cpu_utilization then d.high_cpu_streak + 1 else 0

abbrev reasons_of : ResourceSnapshot → PreemptionDetector → List Reason
reasons_of s d =
    (if s.user_active && ltb 500 s.cpu_utilization then user_is_active ∷ [] else [])
    ++ (if leb d.consecutive_triggers (next_streak s d)
        then cpu_spike s.cpu_utilization ∷ []
        else [])

abbrev is_nonempty : List Reason → Bool
is_nonempty [] = false
is_nonempty (r ∷ rs) = true

unfoldable pub check :
    ResourceSnapshot → PreemptionDetector → (Bool × List Reason) × PreemptionDetector
check s d =
    let reasons = reasons_of s d in
    (
      (is_nonempty reasons, reasons),
      record d { high_cpu_streak = next_streak s d; last_triggered = is_nonempty reasons },
    )

unfoldable pub reset : PreemptionDetector → PreemptionDetector
reset d = record d { high_cpu_streak = 0; last_triggered = false }

-- The detector after the snapshots, the latest of which comes first.
abbrev pub watch : List ResourceSnapshot → PreemptionDetector → PreemptionDetector
watch [] d = d
watch (s ∷ earlier) d = (check s (watch earlier d)).1

-- Were the latest `k` snapshots all at the threshold or above?
abbrev pub busy_for : ℕ → ℕ → List ResourceSnapshot → Bool
busy_for threshold zero l = true
busy_for threshold (suc k) [] = false
busy_for threshold (suc k) (s ∷ earlier) =
    leb threshold s.cpu_utilization && busy_for threshold k earlier

-- Is the user at the machine, which is more than half busy?
abbrev pub in_use : ResourceSnapshot → Bool
in_use s = s.user_active && ltb 500 s.cpu_utilization

watch_settings :
    (l : List ResourceSnapshot) (d : PreemptionDetector)
    → ((watch l d).cpu_threshold ≡ d.cpu_threshold)
      × ((watch l d).consecutive_triggers ≡ d.consecutive_triggers)
unfolding check
watch_settings [] d = (refl, refl)
watch_settings (s ∷ l) d = watch_settings l d

streak_counts :
    (l : List ResourceSnapshot) (d : PreemptionDetector) (k : ℕ)
    → leb k (watch l (reset d)).high_cpu_streak ≡ busy_for d.cpu_threshold k l
unfolding check reset
streak_counts l d zero = ground arith
streak_counts [] d (suc k) = ground arith
streak_counts (s ∷ l) d (suc k) =
    ground (arith, streak_counts l d k, (watch_settings l (reset d)).0)

-- From a reset detector on, a snapshot asks for preemption exactly when the user is at a machine that
-- is more than half busy, or it and the ones before it make `consecutive_triggers` snapshots in a row
-- at the threshold or above.
check_iff_busy :
    (s : ResourceSnapshot) (earlier : List ResourceSnapshot) (d : PreemptionDetector)
    → (check s (watch earlier (reset d))).0.0
      ≡ (in_use s || busy_for d.cpu_threshold d.consecutive_triggers (s ∷ earlier))
unfolding check reset
check_iff_busy s earlier d =
    ground (
      arith,
      streak_counts (s ∷ earlier) d d.consecutive_triggers,
      watch_settings earlier (reset d),
    )
