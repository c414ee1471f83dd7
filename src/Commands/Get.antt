-- ===== src/Commands/Get.antt =====
-- GET of src/commands.rs and the log of the user.
use lloogg.Prelude.{
  ℕ, ◌+◌, ◌*◌, ◌%◌, ◌^◌, ◌≤◌, ◌≡◌, refl, sym, ap, ◌∙◌, inl, inr, Option, none, some, List, [], ◌∷◌,
  ◌++◌, arith, length, min, take, slice, splice, set, to_le, ltb, Bool-cases, Option-cases, ltb→ge,
  subst,
}
use lloogg.Record.{Record}
use lloogg.Constants.{
  magic_wire, status_ok, status_not_found, max_records_protocol_limit, IsCompiledN, wbuf_size,
}
use lloogg.Ring.{RingBuffer}
use lloogg.Ring.Newest.{contents, take-newest, length-newest}
use lloogg.HashMap.{lookup, All-lookup}
use lloogg.Store.{Store, get as store_get}
use lloogg.Store.Parts.{IsPlaced}
use lloogg.Store.View.{IsValid, view}
use lloogg.Connection.{
  Connection, write_response, get_count, header_user_id, write_not_found_response,
}
use lloogg.Connection.Response.{write_status_response_lem}
use lloogg.Commands.{records_response, records_bytes, bytes_records, get_command}
use lloogg.Commands.Copy.{
  length-records_bytes, length-bytes_records, framed, framed-eq, get_last-records, splice-nil,
  nil_of_length,
}
use lloogg.Commands.Frame.{get, IsRequest, Holds, header_user_id-Holds, get_count-Holds}
use lloogg.Commands.Push.{Answers}

-- The response with records: its length counts the two bytes of the record count.
abbrev pub encode_records : List Record → List ℕ
encode_records rs =
    to_le 2 magic_wire
    ++ status_ok ∷ to_le 2 (2 + length rs * 17)
    ++ to_le 2 (length rs)
    ++ records_bytes rs

module _ (store : Store) (conn : Connection) (b : RingBuffer) where
  -- The records asked for.
  abbrev asked : List Record
  asked = take (get_count conn) (contents store.mem b)

  length-asked : length asked ≡ min b.count (get_count conn)
  length-asked =
      ap length (take-newest store.mem b 0 (get_count conn) b.count)
      ∙ length-newest store.mem b 0 (min (get_count conn) b.count)
      ∙ omega arith

  wbuf-records_response :
      (records_response store conn b).wbuf
      ≡ framed conn.wbuf ((2 + length asked * 17) % 2 ^ 16) (length asked) (records_bytes asked)
  unfolding records_response
  wbuf-records_response =
      let k : ℕ = min b.count (get_count conn) in
      let header : List ℕ =
        splice
          (splice (set (splice conn.wbuf 0 (to_le 2 magic_wire)) 2 status_ok) 3
            (to_le 2 ((2 + k * 17) % 2 ^ 16)))
          5 (to_le 2 k) in
      let out : List Record = bytes_records k (slice header 7 (k * 17)) in
      elim (Bool-cases (ltb 0 k)) [
        | inl some_records ↦
            rw (some_records, length-asked)
              (ap (λ rs. splice header 7 (records_bytes rs))
                (get_last-records store.mem b (get_count conn) out
                  (length-bytes_records k (slice header 7 (k * 17)))))
        | inr no_records ↦
            let empty : asked ≡ [] =
              nil_of_length asked (omega (arith, length-asked, ltb→ge 0 k no_records)) in
            rw (no_records, length-asked)
              (sym (ap (λ rs. splice header 7 (records_bytes rs)) empty ∙ splice-nil header 7))
      ]

  records_response-bytes :
      min b.count (get_count conn) ≤ max_records_protocol_limit
      → 7 + min b.count (get_count conn) * 17 ≤ length conn.wbuf
      → slice (records_response store conn b).wbuf 0 (7 + min b.count (get_count conn) * 17)
        ≡ encode_records asked
  records_response-bytes small wide =
      let size : length (records_bytes asked) ≡ min b.count (get_count conn) * 17 =
        length-records_bytes asked ∙ ap (λ (t : ℕ). t * 17) length-asked in
      let fits : (2 + length asked * 17) % 2 ^ 16 ≡ 2 + length asked * 17 =
        omega (arith, length-asked) in
      rw (wbuf-records_response, ← size)
        (framed-eq conn.wbuf ((2 + length asked * 17) % 2 ^ 16) (length asked) (records_bytes asked)
            (omega (arith, size))
          ∙ ap
              (λ p.
                to_le 2 magic_wire
                ++ status_ok ∷ to_le 2 p
                ++ to_le 2 (length asked)
                ++ records_bytes asked)
              fits)

get_command-found :
    (conn : Connection) (store : Store) (b : RingBuffer)
    → lookup (header_user_id conn) store.map_of ≡ some b
    → get_command conn store ≡ records_response store conn b
unfolding get_command store_get
get_command-found conn store b found = rw (found, get_command)

get_command-absent :
    (conn : Connection) (store : Store)
    → lookup (header_user_id conn) store.map_of ≡ none
    → get_command conn store ≡ write_not_found_response conn
unfolding get_command store_get
get_command-absent conn store absent = rw (absent, get_command)

write_not_found-Answers :
    (conn : Connection)
    → 5 ≤ length conn.wbuf
    → Answers (write_not_found_response conn) status_not_found
unfolding write_not_found_response
write_not_found-Answers conn h =
    let (bytes, state) = write_status_response_lem conn status_not_found h in
    record { bytes = bytes; state = state }

-- What GET answers, from the user's log alone.
abbrev pub AnswersGet : Connection → ℕ → Option (List Record × ℕ) → Type 0
AnswersGet conn count none = Answers conn status_not_found
AnswersGet conn count (some (rs, ts)) =
    (slice conn.wbuf conn.wbuf_pos conn.wbuf_len ≡ encode_records (take count rs))
    × (conn.state ≡ write_response)

records_response-AnswersGet :
    {cap : ℕ} (store : Store) (conn : Connection) (b : RingBuffer) (count : ℕ)
    → get_count conn ≡ count
    → IsPlaced cap b
    → IsCompiledN cap
    → length conn.wbuf ≡ wbuf_size cap
    → AnswersGet
        (records_response store conn b)
        count
        (some (contents store.mem b, b.last_write_ts))
unfolding records_response
records_response-AnswersGet {cap} store conn b count e p n size =
    let small : b.count ≤ cap = p.ring.count_in in
    (
      subst
          (λ k.
            slice (records_response store conn b).wbuf 0 (7 + min b.count (get_count conn) * 17)
            ≡ encode_records (take k (contents store.mem b)))
          e
          (records_response-bytes store conn b (omega (arith, small, n.limit))
            (omega (arith, small, size))),
      refl,
    )

-- GET of a well-formed frame answers NOT_FOUND for a user without a log, and otherwise exactly the
-- newest `count` records of the log, newest first. The capacity is one that the build accepts and
-- the response buffer has the size the build gives it.
pub get_command_lem :
    {slots : ℕ} (conn : Connection) {store : Store} (uid count : ℕ)
    → IsRequest (get uid count)
    → Holds conn (get uid count)
    → IsValid slots store
    → IsCompiledN store.capacity
    → length conn.wbuf ≡ wbuf_size store.capacity
    → AnswersGet (get_command conn store) count (view store uid)
get_command_lem conn {store} uid count i held v n size =
    let user : header_user_id conn ≡ uid = header_user_id-Holds conn (get uid count) i held in
    elim (Option-cases (lookup uid store.map_of)) [
      | inr (b, found) ↦
          rw (found, get_command-found conn store b (rw user found))
            (records_response-AnswersGet store conn b count
              (get_count-Holds conn uid count i.1 held)
              (All-lookup (IsPlaced store.capacity) uid store.map_of v.parts.placed found) n size)
      | inl absent ↦
          rw (absent, get_command-absent conn store (rw user absent))
            (write_not_found-Answers conn (omega (arith, size)))
    ]
