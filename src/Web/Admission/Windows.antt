-- ===== src/Web/Admission/Windows.antt =====
-- Totals of the admission table over every interval of a window's length.
use eveai.Base.{
  ℕ, ◌+◌, ◌≤◌, ◌≡◌, ◌⊎◌, ◌&&◌, List, [], ◌∷◌, ◌++◌, leb, ltb, if◌then◌else◌, sum_of, sum_of-append,
  sum_of_mono, sum_of-delete_where, arith,
}
use eveai.Web.Admission.{AdmissionEvent, recent, prune_events}

-- The weight of a row if it lies in the interval [s, s + span].
abbrev in_interval : (AdmissionEvent → ℕ) → ℕ → ℕ → AdmissionEvent → ℕ
in_interval w s span e = if leb s e.created_at_ms && leb e.created_at_ms (s + span) then w e else 0

unfoldable pub within : (AdmissionEvent → ℕ) → ℕ → ℕ → List AdmissionEvent → ℕ
within w s span = sum_of (in_interval w s span)

-- Every interval of the length `span` has a total of at most `most`.
abbrev pub IsBounded : (AdmissionEvent → ℕ) → ℕ → ℕ → List AdmissionEvent → Type 0
IsBounded w span most t = (s : ℕ) → within w s span t ≤ most

within-le-recent :
    (w : AdmissionEvent → ℕ) (s span now : ℕ) (t : List AdmissionEvent)
    → now ≤ s + span
    → within w s span t ≤ recent w now span t
unfolding within recent
within-le-recent w s span now t h = sum_of_mono (in_interval w s span) _ (λ e. ground arith) t

pub append-IsBounded :
    (w : AdmissionEvent → ℕ) (span most : ℕ) (t : List AdmissionEvent) (e : AdmissionEvent)
    → IsBounded w span most t
    → (w e ≡ 0) ⊎ (recent w e.created_at_ms span t + w e ≤ most)
    → IsBounded w span most (t ++ e ∷ [])
unfolding within sum_of
append-IsBounded w span most t e h k s = ground (
  arith,
  sum_of-append (in_interval w s span) t (e ∷ []),
  within-le-recent w s span e.created_at_ms t,
  h s,
)

pub prune-IsBounded :
    (w : AdmissionEvent → ℕ) (span most cutoff : ℕ) (t : List AdmissionEvent)
    → IsBounded w span most t
    → IsBounded w span most (prune_events cutoff t)
unfolding within prune_events
prune-IsBounded w span most cutoff t h s =
    omega
      (arith, sum_of-delete_where (in_interval w s span) (λ e. ltb e.created_at_ms cutoff) t, h s)
