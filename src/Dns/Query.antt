-- ===== src/Dns/Query.antt =====
-- The query that a client builds and a server parses: evdns_request_data_build and request_parse.
pub mod Delivered
use test_codes.Prelude.Memory.{c_string}
use test_codes.Prelude.{
  ℕ, zero, suc, ◌+◌, ◌-◌, ◌*◌, ◌/◌, ◌%◌, ◌^◌, Bool, true, false, not, ◌&&◌, ◌||◌, List, [], ◌∷◌,
  ◌++◌, Option, none, some, ltb, leb, ◌==◌, if◌then◌else◌, ◌>>=◌, length,
}
use test_codes.Dns.{
  Result, ok, failed, name_parse, Writing, Encoded, done, too_long, overflow, append16,
  dnsname_to_labels,
}

-- A row of APPEND16.
pub append16s : ℕ → List ℕ → Writing → Option Writing
append16s buf_len [] w = some w
append16s buf_len (x ∷ xs) w = append16 buf_len x w >>= append16s buf_len xs

abbrev pub then_words : ℕ → List ℕ → Encoded → Option Writing
then_words buf_len words too_long = none
then_words buf_len words overflow = none
then_words buf_len words (done w) = append16s buf_len words w

-- evdns_request_data_build, for a buffer of `buf_len` bytes; `none` is a negative result.
pub evdns_request_data_build : List ℕ → ℕ → ℕ → ℕ → (ℕ → ℕ) → ℕ → Option Writing
unfolding append16s
evdns_request_data_build name trans_id type class buf buf_len = do
  w ←
      append16s buf_len (trans_id ∷ 0x0100 ∷ 1 ∷ 0 ∷ 0 ∷ 0 ∷ [])
        (record { buf = buf; j = 0; table = none })
  then_words buf_len (type ∷ class ∷ []) (dnsname_to_labels false buf_len name w)

-- evdns_request_len
abbrev pub evdns_request_len : ℕ → ℕ
evdns_request_len name_len = 96 + name_len + 2 + 4

-- GET16; `none` is its `goto err`.
pub get16 : (ℕ → ℕ) → ℕ → ℕ → Option (ℕ × ℕ)
get16 packet len j = if ltb len (j + 2) then none else some (packet j * 256 + packet (j + 1), j + 2)

-- `struct evdns_server_question`
pub record Question : Type 0 where
  pub name : List ℕ
  pub type : ℕ
  pub class : ℕ

-- `struct server_request`, as far as request_parse fills it from the packet.
pub record Request : Type 0 where
  pub trans_id : ℕ
  pub flags : ℕ
  pub questions : List Question

-- What request_parse does: it returns -1, it answers DNS_ERR_NOTIMPL, or it calls the user's callback.
pub data Parsed : Type 0 where
  refused : Parsed
  not_implemented : Parsed
  delivered : Request → Parsed

-- A question, of which the name has been read, and the index behind it.
pub read_question : (ℕ → ℕ) → ℕ → Result (List ℕ × ℕ) → Option (Question × ℕ)
unfolding get16 c_string
read_question packet len failed = none
read_question packet len (ok (name, j)) = do
  (type, j1) ← get16 packet len j
  (class, j2) ← get16 packet len j1
  some (record { name = c_string name; type = type; class = class }, j2)

abbrev pub with_question :
    Option (Question × ℕ) → (ℕ → Option (Option (List Question))) → Option (Option (List Question))
with_question none next = some none
with_question (some (q, j)) next = next j >>= λ o. some (o >>= λ qs. some (q ∷ qs))

-- The loop over the questions. The outer `none` is a loop of name_parse without fuel, the inner one an
-- error.
pub question_loop : ℕ → Bool → (ℕ → ℕ) → ℕ → ℕ → Option (Option (List Question))
unfolding read_question
question_loop zero memory packet len j = some (some [])
question_loop (suc count) memory packet len j = name_parse packet len j 256 >>= λ r.
    if memory
    then with_question (read_question packet len r) (question_loop count memory packet len)
    else some none

-- `flags & 0x0110`
abbrev pub kept_flags : ℕ → ℕ
kept_flags flags = flags / 256 % 2 * 256 + flags / 16 % 2 * 16

abbrev pub deliver : ℕ → ℕ → Option (List Question) → Parsed
deliver trans_id flags none = refused
deliver trans_id flags (some questions) =
    if flags / 2048 % 16 == 0
    then delivered (record { trans_id = trans_id; flags = flags; questions = questions })
    else not_implemented

-- request_parse once it has the header.
pub parse_questions : Bool → (ℕ → ℕ) → ℕ → ℕ → ℕ → ℕ → ℕ → Option Parsed
unfolding question_loop
parse_questions memory packet len trans_id flags questions j =
    if flags / 2 ^ 15 % 2 == 1 || not memory
    then some refused
    else (question_loop questions memory packet len j >>= λ o.
        some (deliver trans_id (kept_flags flags) o))

pub header : (ℕ → ℕ) → ℕ → Option (ℕ × ℕ × ℕ × ℕ)
unfolding get16
header packet len = do
  (trans_id, j1) ← get16 packet len 0
  (flags, j2) ← get16 packet len j1
  (questions, j3) ← get16 packet len j2
  (answers, j4) ← get16 packet len j3
  (authority, j5) ← get16 packet len j4
  (additional, j6) ← get16 packet len j5
  some (trans_id, flags, questions, j6)

abbrev pub or_refused : Option (ℕ × ℕ × ℕ × ℕ) → (ℕ → ℕ → ℕ → ℕ → Option Parsed) → Option Parsed
or_refused none next = some refused
or_refused (some (trans_id, flags, questions, j)) next = next trans_id flags questions j

-- request_parse of a packet of `len` bytes, with whether memory is left.
pub request_parse : Bool → (ℕ → ℕ) → ℕ → Option Parsed
unfolding header parse_questions
request_parse memory packet len = or_refused (header packet len) (parse_questions memory packet len)
