-- ===== src/Commands/Copy.antt =====
-- The bytes and the records that GET of src/commands.rs copies out.
use lloogg.Prelude.{
  ℕ, zero, suc, ◌+◌, ◌*◌, ◌≤◌, ◌≡◌, refl, sym, ap, ◌∙◌, List, [], ◌∷◌, ◌++◌, append-nil, arith,
  length, min, take, drop, slice, splice, set, to_le, length-append,
}
use lloogg.Memory.{Memory}
use lloogg.Record.{Record, to_bytes, length-to_bytes}
use lloogg.Constants.{magic_wire, status_ok}
use lloogg.Ring.{RingBuffer, get_last}
use lloogg.Ring.Newest.{newest, contents, take-newest}
use lloogg.Ring.GetLast.{get_last_lem}
use lloogg.Commands.{records_bytes, bytes_records}

pub length-records_bytes : (rs : List Record) → length (records_bytes rs) ≡ length rs * 17
length-records_bytes [] = refl
length-records_bytes (r ∷ rs) = omega (
  arith,
  length-append (to_bytes r) (records_bytes rs),
  length-to_bytes r,
  length-records_bytes rs,
)

pub length-bytes_records : (n : ℕ) (bs : List ℕ) → length (bytes_records n bs) ≡ n
length-bytes_records zero bs = refl
length-bytes_records (suc n) bs = ap suc (length-bytes_records n (drop 17 bs))

take-splice : (xs ys : List ℕ) → length ys ≤ length xs → take (length ys) (splice xs 0 ys) ≡ ys
take-splice xs [] h = refl
take-splice [] (y ∷ ys) h = absurd (omega arith)
take-splice (x ∷ xs) (y ∷ ys) h = ap (λ t. y ∷ t) (take-splice xs ys (omega arith))

drop_all : (xs : List Record) → drop (length xs) xs ≡ []
drop_all [] = refl
drop_all (x ∷ xs) = drop_all xs

-- The first seven bytes and then the records.
abbrev pub framed : List ℕ → ℕ → ℕ → List ℕ → List ℕ
framed wbuf payload_len count bytes =
    splice
      (splice
        (splice (set (splice wbuf 0 (to_le 2 magic_wire)) 2 status_ok) 3 (to_le 2 payload_len)) 5
        (to_le 2 count))
      7 bytes

pub framed-eq :
    (wbuf : List ℕ) (payload_len count : ℕ) (bytes : List ℕ)
    → 7 + length bytes ≤ length wbuf
    → slice (framed wbuf payload_len count bytes) 0 (7 + length bytes)
      ≡ to_le 2 magic_wire ++ status_ok ∷ to_le 2 payload_len ++ to_le 2 count ++ bytes
framed-eq (b0 ∷ b1 ∷ b2 ∷ b3 ∷ b4 ∷ b5 ∷ b6 ∷ rest) payload_len count bytes h =
    let e : 7 + length bytes ≡ suc (suc (suc (suc (suc (suc (suc (length bytes))))))) =
      omega arith in
    rw (e, take-splice rest bytes (omega arith))
framed-eq _ payload_len count bytes h = absurd (omega arith)

-- The records that GET copies out.
pub get_last-records :
    (m : Memory) (b : RingBuffer) (n : ℕ) (out : List Record)
    → length out ≡ min b.count n
    → (get_last m b (min b.count n) out).1 ≡ take n (contents m b)
get_last-records m b n out e =
    let k : ℕ = min b.count n in
    let all : min k b.count ≡ length out = omega (arith, e) in
    let same : min k b.count ≡ min n b.count = omega arith in
    get_last_lem m b k out (omega (arith, e))
    ∙ rw (all, drop_all out, append-nil)
        (take-newest m b 0 k b.count ∙ ap (newest m b 0) same ∙ sym (take-newest m b 0 n b.count))

pub splice-nil : (xs : List ℕ) (off : ℕ) → splice xs off [] ≡ xs
splice-nil xs zero = refl
splice-nil [] (suc off) = refl
splice-nil (x ∷ xs) (suc off) = ap (λ t. x ∷ t) (splice-nil xs off)

pub nil_of_length : (xs : List Record) → length xs ≡ 0 → xs ≡ []
nil_of_length [] h = refl
nil_of_length (x ∷ xs) h = absurd (omega arith)
