-- ===== src/Store/Plain.antt =====
-- The logs that a snapshot can hold, which the requests keep the logs among.
use lloogg.Prelude.{
  ℕ, ◌^◌, ◌≤◌, ◌<◌, ◌≡◌, none, some, List, ◌∷◌, arith, length, min, take, All, All-take,
  length-take, Bool-cases, inl, inr, ◌==◌, ==_iff, subst,
}
use lloogg.Record.{Record, IsTyped}
use lloogg.Store.Spec.{UserLog, Logs, no_logs, records, push_log, erase_log}

-- A log that fits the fields of a snapshot and the buffers of the store that it is loaded into.
pub record IsPlain (cap uid : ℕ) (rs : List Record) (ts : ℕ) : Type 0 where
  pub user : uid < 2 ^ 32
  pub time : ts < 2 ^ 64
  pub some_record : 0 < length rs
  pub fits : length rs ≤ cap
  pub typed : All IsTyped rs

abbrev pub IsPlainLog : ℕ → ℕ → UserLog → Type 0
IsPlainLog cap uid none = Unit
IsPlainLog cap uid (some entry) = IsPlain cap uid entry.0 entry.1

-- Every log fits a snapshot.
abbrev pub ArePlain : ℕ → Logs → Type 0
ArePlain cap logs = (u : ℕ) → IsPlainLog cap u (logs u)

pub no_logs-ArePlain : (cap : ℕ) → ArePlain cap no_logs
no_logs-ArePlain cap u = tt

records-IsTyped : (cap uid : ℕ) (log : UserLog) → IsPlainLog cap uid log → All IsTyped (records log)
records-IsTyped cap uid none p = tt
records-IsTyped cap uid (some entry) p = p.typed

pub push_log-ArePlain :
    (cap uid : ℕ) (r : Record) (ts : ℕ) (logs : Logs)
    → 0 < cap
    → uid < 2 ^ 32
    → ts < 2 ^ 64
    → IsTyped r
    → ArePlain cap logs
    → ArePlain cap (push_log cap uid r ts logs)
push_log-ArePlain cap uid r ts logs positive user time t p u = elim (Bool-cases (uid == u)) [
  | inl same ↦
      let rs : List Record = r ∷ records (logs uid) in
      let size : length (take cap rs) ≡ min cap (length rs) = length-take cap rs in
      let here : uid ≡ u = (==_iff uid u).0 same in
      rw same (
        subst (λ v. IsPlain cap v (take cap rs) ts) here
          (record {
            user = user;
            time = time;
            some_record = omega (arith, size);
            fits = omega (arith, size);
            typed = All-take IsTyped cap rs (t, records-IsTyped cap uid (logs uid) (p uid));
          }))
  | inr other ↦ rw other (p u)
]

pub erase_log-ArePlain :
    (cap uid : ℕ) (logs : Logs) → ArePlain cap logs → ArePlain cap (erase_log uid logs)
erase_log-ArePlain cap uid logs p u = elim (Bool-cases (uid == u)) [
  | inl same ↦ rw same tt
  | inr other ↦ rw other (p u)
]
