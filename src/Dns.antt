-- ===== src/Dns.antt =====
-- The names and queries of codes/libevent-2.0.21-stable/evdns.c: name_parse, dnsname_to_labels with
-- its table of labels, evdns_request_data_build and request_parse.
-- A packet is memory with a length: bytes behind the length are what the array held before. A name is
-- the list of its characters, without the zero at its end.
pub mod Parse
pub mod Labels
pub mod RoundTrip
pub mod Query
mod Examples
use test_codes.Prelude.{
  ℕ, zero, suc, ◌+◌, ◌-◌, ◌*◌, ◌/◌, ◌%◌, ◌^◌, Bool, true, false, not, ◌&&◌, ◌||◌, List, [], ◌∷◌,
  ◌++◌, Option, none, some, ltb, leb, ◌==◌, if◌then◌else◌, ◌>>=◌, length,
}
use test_codes.Prelude.Memory.{slice, memcpy}

abbrev pub dot : ℕ
dot = b'.'

-- Where the loop of name_parse stands: `j`, `name_end` once a pointer was followed, `ptr_count`, and
-- the characters between `name_out` and `cp`.
pub record Parsing : Type 0 where
  pub j : ℕ
  pub name_end : Option ℕ
  pub ptr_count : ℕ
  pub out : List ℕ

-- How a call ends: with a value, or with -1. A loop without fuel is `none`.
pub data Result {ℓ} (A : Type ℓ) : Type ℓ where
  ok : A → Result A
  failed : Result A

abbrev pub end_index : Option ℕ → ℕ → ℕ
end_index none j = j
end_index (some k) j = k

-- `if (cp >= end) return -1;` and what follows the loop: the name, and the new `*idx`.
pub finish_name : ℕ → Parsing → Result (List ℕ × ℕ)
finish_name name_out_len p =
    if leb name_out_len (length p.out) then failed else ok (p.out, end_index p.name_end p.j)

-- A pointer in the packet, of which the first byte `label_len` has been read.
pub follow : (ℕ → ℕ) → ℕ → ℕ → Parsing → Result Parsing
follow packet len label_len p =
    let target = label_len % 64 * 256 + packet p.j in
    if leb len p.j
    then failed
    else if leb len target
    then failed
    else if ltb len (p.ptr_count + 1)
    then failed
    else ok (record p {
      j = target;
      name_end = some (end_index p.name_end (p.j + 1));
      ptr_count = p.ptr_count + 1;
    })

-- A label of the packet, of which the length `label_len` has been read.
pub copy_label : (ℕ → ℕ) → ℕ → ℕ → Parsing → Result Parsing
copy_label packet name_out_len label_len p =
    let begun = not (length p.out == 0) in
    let out : List ℕ = if begun then p.out ++ dot ∷ [] else p.out in
    if ltb 63 label_len
    then failed
    else if begun && leb name_out_len (length p.out + 1)
    then failed
    else if leb name_out_len (length out + label_len)
    then failed
    else ok (record p { j = p.j + label_len; out = out ++ slice packet p.j label_len })

abbrev pub continue :
    Result Parsing → (Parsing → Option (Result (List ℕ × ℕ))) → Option (Result (List ℕ × ℕ))
continue failed next = some failed
continue (ok p) next = next p

pub parse_loop : ℕ → (ℕ → ℕ) → ℕ → ℕ → Parsing → Option (Result (List ℕ × ℕ))
unfolding finish_name follow copy_label
parse_loop zero packet len name_out_len p = none
parse_loop (suc fuel) packet len name_out_len p =
    let label_len = packet p.j in
    let read : Parsing = record p { j = p.j + 1 } in
    let rest : Option (Result (List ℕ × ℕ)) =
      continue
        (if label_len / 64 == 0
          then copy_label packet name_out_len label_len read
          else follow packet len label_len read)
        (parse_loop fuel packet len name_out_len) in
    if leb len p.j
    then some failed
    else if label_len == 0
    then some (finish_name name_out_len read)
    else rest

-- Each round passes a label, which makes the name longer, or follows a pointer, which it counts.
pub name_parse : (ℕ → ℕ) → ℕ → ℕ → ℕ → Option (Result (List ℕ × ℕ))
unfolding parse_loop
name_parse packet len idx name_out_len =
    parse_loop (name_out_len + len + 1) packet len name_out_len
      (record { j = idx; name_end = none; ptr_count = 0; out = [] })

-- `strcmp(a, b) == 0`
pub same_text : List ℕ → List ℕ → Bool
same_text [] [] = true
same_text [] (y ∷ ys) = false
same_text (x ∷ xs) [] = false
same_text (x ∷ xs) (y ∷ ys) = x == y && same_text xs ys

-- `struct dnslabel_table`: the labels that have been used, with their positions.
abbrev pub LabelTable : Type 0
LabelTable = List (List ℕ × ℕ)

pub dnslabel_table_get_pos : LabelTable → List ℕ → Option ℕ
unfolding same_text
dnslabel_table_get_pos [] label = none
dnslabel_table_get_pos ((v, pos) ∷ table) label =
    if same_text label v then some pos else dnslabel_table_get_pos table label

-- dnslabel_table_add, with MAX_LABELS, and with whether mm_strdup has memory; its result is not used.
pub dnslabel_table_add : Bool → LabelTable → List ℕ → ℕ → LabelTable
dnslabel_table_add memory table label pos =
    if length table == 128 || not memory then table else table ++ (label, pos) ∷ []

-- The label up to the first dot, and the name behind that dot, if there is one: strchr.
pub split_dot : List ℕ → List ℕ × Option (List ℕ)
split_dot [] = ([], none)
split_dot (c ∷ name) =
    let (label, rest) = split_dot name in if c == dot then ([], some name) else (c ∷ label, rest)

-- Memory with an index into it, and the table, if one is used.
pub record Writing : Type 0 where
  pub buf : ℕ → ℕ
  pub j : ℕ
  pub table : Option LabelTable

-- How dnsname_to_labels ends: well, with -1 for a label that is too long, or with -2.
pub data Encoded : Type 0 where
  done : Writing → Encoded
  too_long : Encoded
  overflow : Encoded

-- APPEND16; `none` is its `goto overflow`.
pub append16 : ℕ → ℕ → Writing → Option Writing
append16 buf_len x w =
    if ltb buf_len (w.j + 2)
    then none
    else some (record w { buf = memcpy w.buf w.j ((x / 256 % 256) ∷ (x % 256) ∷ []); j = w.j + 2 })

abbrev pub or_overflow : Option Writing → Encoded
or_overflow none = overflow
or_overflow (some w) = done w

-- The position of a name that the table knows.
abbrev pub known : Option LabelTable → List ℕ → Option ℕ
known none name = none
known (some table) name = dnslabel_table_get_pos table name

abbrev pub remember : Bool → Option LabelTable → List ℕ → ℕ → Option LabelTable
remember memory none name j = none
remember memory (some table) name j = some (dnslabel_table_add memory table name j)

-- A label, with its length before it, at the start of the name `start`.
pub put_label : Bool → ℕ → List ℕ → List ℕ → Writing → Encoded
put_label memory buf_len start label w =
    if ltb 63 (length label)
    then too_long
    else if ltb buf_len (w.j + length label + 1)
    then overflow
    else done (record {
      buf = memcpy w.buf w.j (length label ∷ label);
      j = w.j + length label + 1;
      table = remember memory w.table start w.j;
    })

-- "the labels must be terminated by a 0", which is written without a look at `buf_len`.
pub terminate : Writing → Writing
terminate w =
    if w.j == 0 || not (w.buf (w.j - 1) == 0)
    then record w { buf = memcpy w.buf w.j (0 ∷ []); j = w.j + 1 }
    else w

abbrev pub after_label : Encoded → (Writing → Encoded) → Encoded
after_label (done w) next = next w
after_label too_long next = too_long
after_label overflow next = overflow

-- A round of the loop of dnsname_to_labels at `name`: with a position that the table knows for it, or
-- with its first label and what follows that.
pub label_round :
    (List ℕ → Writing → Encoded)
    → Bool
    → ℕ
    → List ℕ
    → Writing
    → Option ℕ
    → List ℕ × Option (List ℕ)
    → Encoded
unfolding put_label terminate append16
label_round next memory buf_len name w (some ref) parts =
    or_overflow (append16 buf_len (ref % 2 ^ 14 + 0xc000) w)
label_round next memory buf_len name w none (label, none) =
    after_label (put_label memory buf_len name label w) (λ w'. done (terminate w'))
label_round next memory buf_len name w none (label, some name') =
    after_label (put_label memory buf_len name label w) (next name')

-- Each round but the last passes a dot.
pub label_loop : ℕ → Bool → ℕ → List ℕ → Writing → Encoded
unfolding label_round split_dot
label_loop zero memory buf_len name w = overflow
label_loop (suc fuel) memory buf_len name w =
    label_round (label_loop fuel memory buf_len) memory buf_len name w (known w.table name)
      (split_dot name)

pub dnsname_to_labels : Bool → ℕ → List ℕ → Writing → Encoded
unfolding label_loop
dnsname_to_labels memory buf_len name w =
    if ltb 255 (length name) then overflow else label_loop (length name + 1) memory buf_len name w
