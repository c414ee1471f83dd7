-- ===== src/Store/Fresh.antt =====
-- `get_or_create` of src/store.rs for a new user, as a step of its own.
use mathlib.Core.Path.{fun_ext}
use lloogg.Prelude.{
  ℕ, ◌+◌, ◌-◌, ◌≤◌, ◌<◌, ◌≡◌, ap, ◌∙◌, none, some, [], arith, ◌==◌, Bool-cases, inl, inr,
  Option-cases, subst, sym,
}
use lloogg.HashMap.{lookup, insert, lookup-insert, lookup-remove_self, length-remove-le}
use lloogg.Store.{Store, get_or_create, len}
use lloogg.Store.Spec.{Logs, with_log}
use lloogg.Store.Parts.{Parts-insert}
use lloogg.Store.View.{IsValid, HasLogs, view, view_of}
use lloogg.Store.Open.{IsCapacity, Opened, fresh_buffer, with_fresh, fresh_empty, vacant-Opened}

module _ {slots : ℕ} {s : Store} {uid p : ℕ} {a : _}
    (o : Opened slots s uid (with_fresh s uid p a) (fresh_buffer p s.capacity)) where
  fresh-IsValid : IsValid slots (with_fresh s uid p a)
  unfolding insert
  fresh-IsValid =
      let count : slots - 1 + 1 ≡ slots = omega (arith, o.some_slot) in
      record {
        free = o.free;
        parts = rw (← o.others) (
            rw count at (
              Parts-insert uid (fresh_buffer p s.capacity) o.parts
                (lookup-remove_self uid (insert uid (fresh_buffer p s.capacity) s.map_of)) o.apart
                o.placed));
      }

fresh-view :
    (s : Store) (uid p : ℕ) (a : _) (u : ℕ)
    → view (with_fresh s uid p a) u ≡ with_log uid ([], 0) (view s) u
fresh-view s uid p a u = elim (Bool-cases (uid == u)) [
  | inl same ↦ rw (lookup-insert, same, fresh_empty s.mem p s.capacity)
  | inr other ↦ rw (lookup-insert, other)
]

fresh-len : (s : Store) (uid p : ℕ) (a : _) → len (with_fresh s uid p a) ≤ len s + 1
unfolding insert
fresh-len s uid p a = omega (arith, length-remove-le uid s.map_of)

absent_of_view : (s : Store) (uid : ℕ) → view s uid ≡ none → lookup uid s.map_of ≡ none
absent_of_view s uid h = elim (Option-cases (lookup uid s.map_of)) [
  | inl absent ↦ absent
  | inr (b, found) ↦ absurd (cc (h, ap (view_of s.mem) found))
]

-- A user without a log gets an empty one, if there is a slot left.
pub get_or_create-HasLogs :
    {slots cap : ℕ} {logs : Logs} {s : Store} (uid : ℕ)
    → IsCapacity cap
    → HasLogs slots cap logs s
    → logs uid ≡ none
    → len s < slots
    → (s1 : Store) × (b : _) × (get_or_create s uid ≡ some (s1, b))
      × HasLogs slots cap (with_log uid ([], 0) logs) s1
      × (len s1 ≤ len s + 1)
get_or_create-HasLogs {logs = logs} {s = s} uid c h absent room =
    let (p, a, opened, o) =
      vacant-Opened {s = s} uid h.valid.free (subst IsCapacity (sym h.capacity) c) h.valid.parts
        (absent_of_view s uid (ap (λ l. l uid) h.logs_eq ∙ absent)) room in
    (
      with_fresh s uid p a,
      fresh_buffer p s.capacity,
      opened,
      record {
        valid = fresh-IsValid o;
        capacity = h.capacity;
        logs_eq = fun_ext (fresh-view s uid p a) ∙ ap (with_log uid ([], 0)) h.logs_eq;
      },
      fresh-len s uid p a,
    )
