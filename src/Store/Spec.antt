-- ===== src/Store/Spec.antt =====
-- What the store promises: for each user the newest records, at most `cap` of them, and the server
-- time of the last push.
use lloogg.Prelude.{ℕ, Option, none, some, List, [], ◌∷◌, take, ◌==◌, if◌then◌else◌}
use lloogg.Record.{Record}

abbrev pub UserLog : Type 0
UserLog = Option (List Record × ℕ)

abbrev pub Logs : Type 0
Logs = ℕ → UserLog

abbrev pub records : UserLog → List Record
records none = []
records (some (rs, ts)) = rs

abbrev pub no_logs : Logs
no_logs u = none

-- A push puts the record in front and keeps the newest `cap`.
abbrev pub push_log : ℕ → ℕ → Record → ℕ → Logs → Logs
push_log cap uid r ts logs u =
    if uid == u then some (take cap (r ∷ records (logs uid)), ts) else logs u

abbrev pub erase_log : ℕ → Logs → Logs
erase_log uid logs u = if uid == u then none else logs u

-- The logs with another log for one user.
abbrev pub with_log : ℕ → List Record × ℕ → Logs → Logs
with_log uid entry logs u = if uid == u then some entry else logs u
