-- ===== src/Capture/Session/Stored.antt =====
-- What `SessionReader.get` gives of a flow that `_flush` wrote, in a batch with others
-- (capture/session.py): the replacing INSERTs and the SELECTs between them.
use pporlock.Base.{
  ℕ, ◌<◌, ◌≡◌, refl, sym, ap, ◌∙◌, subst, true, some, List, [], ◌∷◌, ◌++◌, ◌==◌, text_eq, map,
  filter, find, All, arith,
}
use pporlock.Base.Sort.{Sorted, Sorted-unique, lex_le, sort, sort-Sorted, with_key-sort}
use pporlock.Base.Text.{Text}
use pporlock.Engine.Models.{Bytes, WebSocketMessage}
use pporlock.Capture.Records.{FlowRecord}
use pporlock.Capture.Session.Rows.{
  Encoded, FlowRow, MessageRow, message_row, record_of, redact_and_encode,
}
use pporlock.Capture.Session.RoundTrip.{record_of-redact_and_encode, restored}
use pporlock.Capture.Session.Writer.{
  Coder, Database, all_messages, encode_with, insert_all, insert_messages,
}
use pporlock.Capture.Session.Reader.{get, messages_of, read_row}
use pporlock.Capture.Session.Inserted.{
  Ascending, Elsewhere, find_written, is_stale, of_id, written_messages,
}

ascending-le :
    (m : MessageRow) (ms : List MessageRow)
    → All (λ k. m.idx < k) (map (λ (x : MessageRow). x.idx) ms)
    → All (λ (x : MessageRow). lex_le (m.idx, 0) (x.idx, 0) ≡ true) ms
ascending-le m [] h = tt
ascending-le m (x ∷ ms) h = (ground (arith, h.0), ascending-le m ms h.1)

Ascending-Sorted :
    (ms : List MessageRow)
    → Ascending (map (λ (m : MessageRow). m.idx) ms)
    → Sorted (λ (m : MessageRow). (m.idx, 0)) ms
Ascending-Sorted [] h = tt
Ascending-Sorted (m ∷ ms) h = (ascending-le m ms h.0, Ascending-Sorted ms h.1)

sort-Ascending :
    (ms : List MessageRow)
    → Ascending (map (λ (m : MessageRow). m.idx) ms)
    → sort (λ (m : MessageRow). (m.idx, 0)) ms ≡ ms
sort-Ascending ms h =
    let key : MessageRow → ℕ × ℕ = λ m. (m.idx, 0) in
    Sorted-unique key (sort key ms) ms (sort-Sorted key ms) (Ascending-Sorted ms h)
      (λ k. with_key-sort key k ms)

get_found :
    (c : Coder) (db : Database) (id : Text) (row : FlowRow)
    → find (λ r. r.flow_id == id) db.flows ≡ some row
    → get c db id ≡ some (read_row c db row)
unfolding get
get_found c db id row h = rw (h, get) refl

module _ (c : Coder)
    (utf8_exact : (body : Bytes) (text : Text)
      → c.utf8_decode body ≡ some text
      → c.utf8_encode text ≡ body)
    (b64_exact : (body : Bytes) → c.b64_decode (c.b64_encode body) ≡ some body) where
  own_rows :
      (id : Text) (ms : List WebSocketMessage)
      → All
          (λ m. of_id id m ≡ true)
          (map
            (message_row c.utf8_decode c.utf8_encode c.b64_encode c.b64_decode c.max_body_bytes id)
            ms)
  own_rows id [] = tt
  own_rows id (m ∷ ms) = ((text_eq.beq_iff id id).1 refl, own_rows id ms)

  row_indices :
      (id : Text) (ms : List WebSocketMessage)
      → map
          (λ (m : MessageRow). m.idx)
          (map
            (message_row c.utf8_decode c.utf8_encode c.b64_encode c.b64_decode c.max_body_bytes id)
            ms)
        ≡ map (λ (m : WebSocketMessage). m.index) ms
  row_indices id [] = refl
  row_indices id (m ∷ ms) = ap (λ ns. m.index ∷ ns) (row_indices id ms)

  -- A flow that was written to a session, in a batch with others and into a database with any
  -- rows, is read back by its id as it was redacted, but for what the rows do not hold: bodies
  -- and frames are cut at the session's bound, the flow's own id, start, end and tab stand in its
  -- messages, an empty path is the root, and the error, the short circuit, the encoding and the
  -- count of dropped frames are gone. No later flow of the batch writes to it; the indices of its
  -- frames rise; and of the frames that were written of it before, in the database or in the
  -- batch, each is replaced by one with its index. UTF-8 and base64 are exact on what they
  -- encode.
  pub get-insert_all :
      (seq : ℕ) (r : FlowRecord) (before after : List Encoded) (db : Database)
      → Ascending (map (λ (m : WebSocketMessage). m.index) (c.redact r).ws_messages)
      → All (Elsewhere (c.redact r).flow_id) after
      → filter
          (is_stale (c.redact r).flow_id (encode_with c seq r).ws)
          (insert_messages (all_messages before) db.messages)
        ≡ []
      → get c (insert_all (before ++ encode_with c seq r ∷ after) db) (c.redact r).flow_id
        ≡ some (
            restored c.utf8_decode c.utf8_encode c.b64_encode c.b64_decode utf8_exact b64_exact
              c.max_body_bytes
              (c.redact r))
  unfolding insert_all messages_of redact_and_encode
  get-insert_all seq r before after db up away fresh =
      let id = (c.redact r).flow_id in
      let e = encode_with c seq r in
      let rising : Ascending (map (λ (m : MessageRow). m.idx) e.ws) =
        subst Ascending (sym (row_indices id (c.redact r).ws_messages)) up in
      let rows =
        ap (sort (λ (m : MessageRow). (m.idx, 0))) (
          written_messages id before e after db.messages (own_rows id (c.redact r).ws_messages)
            rising away fresh)
        ∙ sort-Ascending e.ws rising in
      get_found c (insert_all (before ++ e ∷ after) db) id e.flow
        (find_written id before e after db.flows ((text_eq.beq_iff id id).1 refl) away)
      ∙ ap (λ ms. some (record_of c.utf8_decode c.utf8_encode c.b64_encode c.b64_decode e.flow ms))
          rows
      ∙ ap some (
          record_of-redact_and_encode c.utf8_decode c.utf8_encode c.b64_encode c.b64_decode
            utf8_exact b64_exact c.max_body_bytes c.redact seq r)
