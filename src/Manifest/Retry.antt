-- ===== src/Manifest/Retry.antt =====
-- `exec_with_retry` of src/manifest_store.cpp, over what the calls of `sqlite3_exec` answer. The number of
-- retries is not negative. The delay, an `int`, wraps at 32 bits; where it leaves the range of an `int` C++ leaves
-- it undefined.
use caravault.Base.{
  ℕ, zero, suc, ◌+◌, ◌*◌, ◌%◌, ◌^◌, ◌≤◌, ◌<◌, ◌≡◌, ◌≢◌, refl, sym, Bool, true, false, List, [], ◌∷◌,
  length, arith, ◌⊎◌, inl, inr, ◌∙◌, ap, subst,
}
use native.Mathlib.Nat.{pow-succ', mul_assoc, mul-le-mul_left, one-le-pow}
use caravault.Base.Results.{Result, ok, err}

-- `SQLITE_OK`, `SQLITE_BUSY`, `SQLITE_LOCKED`, and the other codes.
pub data ResultCode : Type 0 where
  sqlite_ok sqlite_busy sqlite_locked sqlite_failed : ResultCode

abbrev pub is_contended : ResultCode → Bool
is_contended sqlite_busy = true
is_contended sqlite_locked = true
is_contended sqlite_ok = false
is_contended sqlite_failed = false

-- The sleeps, and the number of attempts that the error names.
abbrev pub Retried : Type 0
Retried = List ℕ × Result ℕ Unit

abbrev slept : ℕ → Retried → Retried
slept delay (delays, r) = (delay ∷ delays, r)

-- The attempt after `attempt` others, with `left` more behind it; `answers` is what it and they are answered.
unfoldable pub try_from : (ℕ → ResultCode) → ℕ → ℕ → ℕ → Retried
try_from answers zero attempt delay_ms = elim (answers 0) [
  | sqlite_ok ↦ ([], ok tt)
  | _ ↦ ([], err (attempt + 1))
]
try_from answers (suc left) attempt delay_ms =
    let rest =
      slept delay_ms (try_from (λ i. answers (suc i)) left (attempt + 1) (delay_ms * 2 % 2 ^ 32)) in
    elim (answers 0) [
      | sqlite_ok ↦ ([], ok tt)
      | sqlite_busy ↦ rest
      | sqlite_locked ↦ rest
      | sqlite_failed ↦ ([], err (attempt + 1))
    ]

unfoldable pub exec_with_retry : (ℕ → ResultCode) → ℕ → ℕ → Retried
exec_with_retry answers max_retries initial_delay_ms =
    try_from answers max_retries 0 initial_delay_ms

unfoldable pub total : List ℕ → ℕ
total [] = 0
total (n ∷ ns) = n + total ns

-- The first `n` answers are contended.
abbrev pub IsContended : (ℕ → ResultCode) → ℕ → Type 0
IsContended answers n = (i : ℕ) → i < n → is_contended (answers i) ≡ true

-- The answer of the last attempt decides: `n` sleeps were before it.
abbrev IsDecided : ResultCode → ℕ → ℕ → ℕ → Result ℕ Unit → Type 0
IsDecided answer n left attempts r =
    ((answer ≡ sqlite_ok) × (r ≡ ok tt))
    ⊎ ((answer ≢ sqlite_ok) × (r ≡ err attempts) × ((n ≡ left) ⊎ (is_contended answer ≡ false)))

-- A run: a sleep behind each contended answer but the last attempt's, with delays that double.
abbrev pub IsRetried : (ℕ → ResultCode) → ℕ → ℕ → ℕ → Retried → Type 0
IsRetried answers left attempt delay_ms (delays, r) =
    (length delays ≤ left)
    × IsContended answers (length delays)
    × IsDecided (answers (length delays)) (length delays) left (attempt + length delays + 1) r
    × (total delays + delay_ms ≡ delay_ms * 2 ^ length delays)

IsContended-suc :
    (answers : ℕ → ResultCode) (n : ℕ)
    → is_contended (answers 0) ≡ true
    → IsContended (λ i. answers (suc i)) n
    → IsContended answers (suc n)
IsContended-suc answers n c h zero l = c
IsContended-suc answers n c h (suc i) l = h i (omega (arith, l))

slept-IsRetried :
    (answers : ℕ → ResultCode) (left attempt delay_ms : ℕ) (t : Retried)
    → is_contended (answers 0) ≡ true
    → IsRetried (λ i. answers (suc i)) left (attempt + 1) (delay_ms * 2) t
    → IsRetried answers (suc left) attempt delay_ms (slept delay_ms t)
unfolding total
slept-IsRetried answers left attempt delay_ms (delays, r) c (few, h, decided, time) = (
  omega (arith, few),
  IsContended-suc answers (length delays) c h,
  elim decided [
    | inl done ↦ inl done
    | inr (e, q, inl last) ↦ inr (e, q ∙ ap err (omega arith), inl (omega (arith, last)))
    | inr (e, q, inr bad) ↦ inr (e, q ∙ ap err (omega arith), inr bad)
  ],
  let twice : delay_ms * 2 ^ suc (length delays) ≡ delay_ms * 2 * 2 ^ length delays =
        rw pow-succ' (sym (mul_assoc delay_ms 2 (2 ^ length delays))) in
      omega (arith, time, twice),
)

at_once-IsRetried :
    (answers : ℕ → ResultCode) (left attempt delay_ms : ℕ) (r : Result ℕ Unit)
    → IsDecided (answers 0) 0 left (attempt + 1) r
    → IsRetried answers left attempt delay_ms ([], r)
unfolding total
at_once-IsRetried answers left attempt delay_ms r decided = (
  omega arith,
  (λ i l. absurd (omega (arith, l))),
  subst (λ n. IsDecided (answers 0) 0 left n r) (omega arith) decided,
  omega arith,
)

-- Delays that stay in the range of an `int` do not wrap.
doubled-fits :
    (left delay_ms : ℕ) → delay_ms * 2 ^ suc left < 2 ^ 31 → delay_ms * 2 * 2 ^ left < 2 ^ 31
doubled-fits left delay_ms h = rw (mul_assoc delay_ms 2 (2 ^ left), ← pow-succ' 2 left) h

doubled_small :
    (left delay_ms : ℕ) → delay_ms * 2 ^ suc left < 2 ^ 31 → delay_ms * 2 % 2 ^ 32 ≡ delay_ms * 2
doubled_small left delay_ms h =
    let whole : delay_ms * 2 * 1 ≤ delay_ms * 2 * 2 ^ left =
      mul-le-mul_left (delay_ms * 2) (one-le-pow left 2 (omega arith)) in
    omega (arith, doubled-fits left delay_ms h, whole)

try_from-IsRetried :
    (answers : ℕ → ResultCode) (left attempt delay_ms : ℕ)
    → delay_ms * 2 ^ left < 2 ^ 31
    → IsRetried answers left attempt delay_ms (try_from answers left attempt delay_ms)
unfolding try_from
try_from-IsRetried answers zero attempt delay_ms fits = go (answers 0) refl
  where
    refused :
        answers 0 ≢ sqlite_ok → IsRetried answers zero attempt delay_ms ([], err (attempt + 1))
    refused n = at_once-IsRetried answers zero attempt delay_ms _ (inr (n, refl, inl refl))

    go :
        (c : ResultCode)
        → answers 0 ≡ c
        → IsRetried answers zero attempt delay_ms
            (elim c [ sqlite_ok ↦ ([], ok tt) | _ ↦ ([], err (attempt + 1)) ])
    go sqlite_ok e = at_once-IsRetried answers zero attempt delay_ms _ (inl (e, refl))
    go sqlite_busy e = refused (λ o. cc (e, o))
    go sqlite_locked e = refused (λ o. cc (e, o))
    go sqlite_failed e = refused (λ o. cc (e, o))
try_from-IsRetried answers (suc left) attempt delay_ms fits =
    let later = doubled-fits left delay_ms fits in
    subst (λ d. IsRetried answers (suc left) attempt delay_ms (tried d))
      (sym (doubled_small left delay_ms fits))
      (go (try_from-IsRetried (λ i. answers (suc i)) left (attempt + 1) (delay_ms * 2) later)
        (answers 0) refl)
  where
    tried : ℕ → Retried
    tried d = elim (answers 0) [
      | sqlite_ok ↦ ([], ok tt)
      | sqlite_busy ↦ slept delay_ms (try_from (λ i. answers (suc i)) left (attempt + 1) d)
      | sqlite_locked ↦ slept delay_ms (try_from (λ i. answers (suc i)) left (attempt + 1) d)
      | sqlite_failed ↦ ([], err (attempt + 1))
    ]

    rest : Retried
    rest = try_from (λ i. answers (suc i)) left (attempt + 1) (delay_ms * 2)

    go :
        IsRetried (λ i. answers (suc i)) left (attempt + 1) (delay_ms * 2) rest
        → (c : ResultCode) → answers 0 ≡ c
        → IsRetried answers (suc left) attempt delay_ms (elim c [
          | sqlite_ok ↦ ([], ok tt)
          | sqlite_busy ↦ slept delay_ms rest
          | sqlite_locked ↦ slept delay_ms rest
          | sqlite_failed ↦ ([], err (attempt + 1))
        ])
    go h sqlite_ok e = at_once-IsRetried answers (suc left) attempt delay_ms _ (inl (e, refl))
    go h sqlite_busy e = slept-IsRetried answers left attempt delay_ms rest (ap is_contended e) h
    go h sqlite_locked e = slept-IsRetried answers left attempt delay_ms rest (ap is_contended e) h
    go h sqlite_failed e =
        at_once-IsRetried answers (suc left) attempt delay_ms _
          (inr (λ o. cc (e, o), refl, inr (ap is_contended e)))

-- Where the delay, doubled for each retry, stays in the range of an `int`: every attempt of a run with retries
-- but the last was answered with busy or locked; the last one returns if its answer is SQLITE_OK, and throws
-- the number of attempts only where no retry is left or the answer is another; the sleeps and the first delay
-- make that delay doubled once for each sleep.
pub exec_with_retry-IsRetried :
    (answers : ℕ → ResultCode) (max_retries initial_delay_ms : ℕ)
    → initial_delay_ms * 2 ^ max_retries < 2 ^ 31
    → IsRetried answers max_retries 0 initial_delay_ms
        (exec_with_retry answers max_retries initial_delay_ms)
unfolding exec_with_retry
exec_with_retry-IsRetried answers max_retries initial_delay_ms fits =
    try_from-IsRetried answers max_retries 0 initial_delay_ms fits
