-- ===== src/Store/Commands.antt =====
-- Command IDs and run IDs: `BeginRun` and `RecordCommand` of internal/store/store.go.
use coragent.Base.{
  ℕ, ◌+◌, ◌^◌, ◌≤◌, ◌<◌, true, false, ◌≡◌, refl, none, some, List, Bytes, arith, same_refl, same,
  same_eq, Bool-cases, Option-cases, drop, sym, ◌∙◌, is_some, inl, inr, ap,
}
use coragent.Base.Int.{pos}
use coragent.Base.Decimal.{decimal-injective}
use coragent.Base.Dict.{Dict, get, put, get-put}
use coragent.Errors.{ok, err, duplicate_command}
use coragent.Store.{Store, Manifest, RunBudget, u64}
use coragent.Store.Session.{begin_run, begun, record_command, seen, run_name}
use coragent.Store.Rewrites.{is_ok}
use coragent.Store.Manifests.{performs, performs_keeps}
use coragent.Store.Crash.{Call}

abbrev IsSeen : Bytes → Manifest → Type 0
IsSeen c m = seen (get m.seen_commands c) ≡ true

performs-IsSeen :
    (c : Bytes) (cs : List Call) (s : Store)
    → IsSeen c s.manifest
    → IsSeen c (performs cs s).manifest
performs-IsSeen c =
    performs_keeps (λ _ commands _. seen (get commands c) ≡ true)
      (λ d now m w. unfold begun in ground (arith, get-put m.seen_commands d c true))
      (λ d m w. ground (arith, get-put m.seen_commands d c true)) (λ r j a b b' m e f w. w)

record_command-IsSeen :
    (c : Bytes) (now : ℕ) (s : Store) → IsSeen c (record_command c now s).1.manifest
unfolding record_command
record_command-IsSeen c now s =
    ground (arith, get-put s.manifest.seen_commands c c true, same_refl c)

begin_run-IsSeen :
    (c : Bytes) (now : ℕ) (s : Store)
    → is_ok (begin_run c now s).0 ≡ true
    → IsSeen c (begin_run c now s).1.manifest
unfolding begin_run
begin_run-IsSeen c now s h = ground (arith, get-put s.manifest.seen_commands c c true, same_refl c)

-- A consumed ID is refused, with nothing changed.
seen_refused :
    (c : Bytes) (now : ℕ) (s : Store)
    → IsSeen c s.manifest
    → (record_command c now s ≡ (err duplicate_command, s))
      × (is_ok (begin_run c now s).0 ≡ false)
      × ((begin_run c now s).1 ≡ s)
seen_refused c now s h = (
  unfold record_command in ground arith,
  unfold begin_run in ground arith,
  unfold begin_run in ground arith,
)

-- Whatever `RecordCommand` returned, and whatever calls follow it, the same command ID is never accepted again, by
-- `RecordCommand` or `BeginRun`, and a refused call changes nothing.
pub record_command_once :
    (c : Bytes) (now : ℕ) (s : Store) (cs : List Call) (later : ℕ)
    → let t = performs cs (record_command c now s).1 in
      (record_command c later t ≡ (err duplicate_command, t))
      × (is_ok (begin_run c later t).0 ≡ false)
      × ((begin_run c later t).1 ≡ t)
record_command_once c now s cs later =
    seen_refused c later _ (performs-IsSeen c cs _ (record_command-IsSeen c now s))

-- If `BeginRun` returned, then after any calls the same command ID is never accepted again, by `RecordCommand` or
-- `BeginRun`, and a refused call changes nothing.
pub begin_run_once :
    (c : Bytes) (now : ℕ) (s : Store) (cs : List Call) (later : ℕ)
    → is_ok (begin_run c now s).0 ≡ true
    → let t = performs cs (begin_run c now s).1 in
      (record_command c later t ≡ (err duplicate_command, t))
      × (is_ok (begin_run c later t).0 ≡ false)
      × ((begin_run c later t).1 ≡ t)
begin_run_once c now s cs later h =
    seen_refused c later _ (performs-IsSeen c cs _ (begin_run-IsSeen c now s h))

-- Every budget belongs to a run that was begun, in the order of the counter.
abbrev pub NamesUpTo : ℕ → Dict RunBudget → Type 0
NamesUpTo next m = (k : Bytes) → is_some (get m k) ≡ true → (n : ℕ) × (n ≤ next) × (k ≡ run_name n)

run_name-injective : {m n : ℕ} → run_name m ≡ run_name n → m ≡ n
run_name-injective h = decimal-injective (ap (drop 4) h)

begin_run-ok :
    (c : Bytes) (now : ℕ) (s : Store) {r : Bytes}
    → (begin_run c now s).0 ≡ ok r
    → (r ≡ run_name (u64 (s.manifest.next_run + 1)))
      × ((begin_run c now s).1.manifest ≡ begun c now s.manifest)
unfolding begin_run
begin_run-ok c now s {r} h = ground arith

-- A new name after the ones counted so far.
put-NamesUpTo :
    (next : ℕ) (m : Dict RunBudget) (b : RunBudget)
    → NamesUpTo next m
    → NamesUpTo (next + 1) (put m (run_name (next + 1)) b)
put-NamesUpTo next m b names k h = elim (Bool-cases (same (run_name (next + 1)) k)) [
  | inl e ↦ (next + 1, omega arith, sym (same_eq (run_name (next + 1)) k e))
  | inr e ↦
      let (n, le, eq) = names k (ground (arith, get-put m (run_name (next + 1)) k b)) in
      (n, omega arith, eq)
]

unused_name :
    (next : ℕ) (m : Dict RunBudget) → NamesUpTo next m → get m (run_name (next + 1)) ≡ none
unused_name next m names = elim (Option-cases (get m (run_name (next + 1)))) [
  | inl e ↦ e
  | inr (b, e) ↦
      let (n, le, eq) = names (run_name (next + 1)) (ap is_some e) in
      let same_number = run_name-injective eq in ground arith
]

-- Let every budget belong to a run counted so far, and let the counter be below its maximum. If `BeginRun`
-- returns a run ID, no budget had that ID, the new run is the active one with an empty budget, and the budgets
-- belong to the runs counted now.
pub begin_run-fresh :
    (c : Bytes) (now : ℕ) (s : Store) {r : Bytes}
    → NamesUpTo s.manifest.next_run s.manifest.budgets
    → s.manifest.next_run + 1 < 2 ^ 64
    → (begin_run c now s).0 ≡ ok r
    → let t = (begin_run c now s).1 in
      (get s.manifest.budgets r ≡ none)
      × (get t.manifest.budgets r
          ≡ some (record { logical_model_calls = 0; transport_attempts = 0; retry_delay = pos 0 }))
      × (t.manifest.active_run ≡ some (record { id = r; started_at = now }))
      × NamesUpTo t.manifest.next_run t.manifest.budgets
begin_run-fresh c now s {r} names small h =
    let next = s.manifest.next_run in
    let (name, manifest) = begin_run-ok c now s h in
    let counted : u64 (next + 1) ≡ next + 1 = omega arith in
    let r_name : r ≡ run_name (next + 1) = name ∙ ap run_name counted in
    rw (manifest, r_name)
      (unfold begun in
        rw counted (
          unused_name next s.manifest.budgets names,
          rw
              (
                get-put s.manifest.budgets (run_name (next + 1)) (run_name (next + 1)) _,
                same_refl (run_name (next + 1)),
              )
              refl,
          refl,
          put-NamesUpTo next s.manifest.budgets _ names,
        ))
