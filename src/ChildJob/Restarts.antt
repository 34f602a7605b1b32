-- ===== src/ChildJob/Restarts.antt =====
-- When a job that keeps exiting is given up (`ShouldStop` and `RecordTime`).
use mathlib.Core.List.{append_assoc, append-nil}
use chromiumos_platform_logi.Prelude.{
  ℕ, zero, suc, ◌+◌, ◌<◌, ◌≤◌, ◌≡◌, refl, sym, ap, ◌∙◌, Bool, true, false, ◌↔◌, List, [], ◌∷◌, ◌++◌,
  length, ltb, ltb→lt, lt→ltb, replicate, length-append, arith, Text,
}
use chromiumos_platform_logi.ChildJob.{
  ChildJob, new, should_stop, record_time, front, pop, restart_tries, restart_window_seconds,
}

-- The job after it was started at each of the times.
unfoldable pub record_all : ChildJob → List ℕ → ChildJob
record_all j [] = j
record_all j (t ∷ ts) = record_all (record_time j t) ts

pub drop : ℕ → List ℕ → List ℕ
drop zero ts = ts
drop (suc n) [] = []
drop (suc n) (t ∷ ts) = drop n ts

times-record_all :
    (j : ChildJob) (x : ℕ) (xs ts : List ℕ)
    → j.start_times ≡ x ∷ xs
    → (record_all j ts).start_times ≡ drop (length ts) ((x ∷ xs) ++ ts)
unfolding record_all drop record_time
times-record_all j x xs [] e = rw append-nil e
times-record_all j x [] (t ∷ ts) e =
    times-record_all (record_time j t) t [] ts (ap (λ (q : List ℕ). pop (q ++ t ∷ [])) e)
times-record_all j x (y ∷ ys) (t ∷ ts) e =
    times-record_all (record_time j t) y (ys ++ t ∷ []) ts
      (ap (λ (q : List ℕ). pop (q ++ t ∷ [])) e)
    ∙ ap (λ (q : List ℕ). drop (length ts) (y ∷ q)) (append_assoc ys (t ∷ []) ts)

drop-append : (xs ys : List ℕ) → drop (length xs) (xs ++ ys) ≡ ys
unfolding drop
drop-append [] ys = refl
drop-append (x ∷ xs) ys = drop-append xs ys

-- The program's record of the starts of a new job: the last four, 0 for each that is missing.
times_of_new :
    (args : List Text) (multi : Bool) (ts : List ℕ)
    → (record_all (new args multi) ts).start_times
      ≡ drop (length ts) (replicate restart_tries 0 ++ ts)
unfolding new
times_of_new args multi ts = times-record_all (new args multi) 0 (0 ∷ 0 ∷ 0 ∷ []) ts refl

last_four :
    (older last : List ℕ)
    → length last ≡ restart_tries
    → drop (length (older ++ last)) (replicate restart_tries 0 ++ (older ++ last)) ≡ last
last_four older last e =
    let front_length : length (older ++ last) ≡ length (replicate restart_tries 0 ++ older) =
      omega (arith, length-append older last) in
    rw front_length (
      ap (drop (length (replicate restart_tries 0 ++ older)))
        (sym (append_assoc (replicate restart_tries 0) older last))
      ∙ drop-append (replicate restart_tries 0 ++ older) last)

front_zero :
    {now : ℕ} (ts : List ℕ)
    → length ts < restart_tries
    → restart_window_seconds ≤ now
    → ltb now (front (drop (length ts) (replicate restart_tries 0 ++ ts)) + restart_window_seconds)
      ≡ false
unfolding drop
front_zero [] few late = ground arith
front_zero (a ∷ []) few late = ground arith
front_zero (a ∷ b ∷ []) few late = ground arith
front_zero (a ∷ b ∷ c ∷ []) few late = ground arith
front_zero (a ∷ b ∷ c ∷ d ∷ ts) few late = absurd (omega arith)

-- Of a job that was started four times or more, the first of the last four starts decides: it
-- is given up exactly if less than 60 seconds have passed since then.
pub should_stop-iff-fourth_start :
    (args : List Text) (multi : Bool) (older : List ℕ) (t₁ t₂ t₃ t₄ now : ℕ)
    → (should_stop (record_all (new args multi) (older ++ t₁ ∷ t₂ ∷ t₃ ∷ t₄ ∷ [])) now ≡ true)
      ↔ (now < t₁ + restart_window_seconds)
unfolding should_stop
should_stop-iff-fourth_start args multi older t₁ t₂ t₃ t₄ now =
    let ts : List ℕ = older ++ t₁ ∷ t₂ ∷ t₃ ∷ t₄ ∷ [] in
    let kept : (record_all (new args multi) ts).start_times ≡ t₁ ∷ t₂ ∷ t₃ ∷ t₄ ∷ [] =
      times_of_new args multi ts ∙ last_four older (t₁ ∷ t₂ ∷ t₃ ∷ t₄ ∷ []) refl in
    rw kept (ltb→lt _ _, lt→ltb _ _)

-- A job with at most three starts behind it is not given up once the clock has passed its first
-- minute.
pub should_stop-few_starts :
    (args : List Text) (multi : Bool) (ts : List ℕ) (now : ℕ)
    → length ts < restart_tries
    → restart_window_seconds ≤ now
    → should_stop (record_all (new args multi) ts) now ≡ false
unfolding should_stop
should_stop-few_starts args multi ts now few late =
    rw (times_of_new args multi ts) (front_zero ts few late)
