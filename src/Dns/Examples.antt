-- ===== src/Dns/Examples.antt =====
-- The theorems on evdns.c at concrete inputs.
use test_codes.Prelude.{
  ℕ, zero, suc, ◌+◌, ◌<◌, ◌≡◌, refl, true, List, [], ◌∷◌, none, some, length, Then, arith,
}
use test_codes.Dns.{Writing, ok, name_parse, dnsname_to_labels}
use test_codes.Dns.Parse.{Named, name_parse-Named, name_parse_same}
use test_codes.Dns.Labels.{NoDot, IsLabel, AllLabels, join, Done}
use test_codes.Dns.RoundTrip.{name_parse-dnsname_to_labels}
use test_codes.Dns.Query.{delivered, evdns_request_data_build, evdns_request_len, request_parse}
use test_codes.Dns.Query.Delivered.{request_parse-evdns_request_data_build}

-- A packet with a pointer to itself at its start.
abbrev loops : ℕ → ℕ
loops zero = 0xc0
loops (suc i) = 0

name_parse-Named_example : Then (Named 2 256) (name_parse loops 2 0 256)
name_parse-Named_example = name_parse-Named loops 2 0 256

-- The same two bytes, with others behind them.
abbrev loops_more : ℕ → ℕ
loops_more zero = 0xc0
loops_more (suc zero) = 0
loops_more (suc (suc i)) = 7

same_loops : (i : ℕ) → i < 2 → loops i ≡ loops_more i
same_loops zero h = refl
same_loops (suc zero) h = refl
same_loops (suc (suc i)) h = absurd (omega arith)

name_parse_same_example : name_parse loops 2 0 256 ≡ name_parse loops_more 2 0 256
name_parse_same_example = name_parse_same loops loops_more 2 0 256 same_loops

-- "ab" and "c"
abbrev first_label : List ℕ
first_label = b'a' ∷ b'b' ∷ []

abbrev labels_behind : List (List ℕ)
labels_behind = (b'c' ∷ []) ∷ []

first_label-IsLabel : IsLabel first_label
unfolding NoDot
first_label-IsLabel = record {
  some_chars = omega arith;
  short = omega arith;
  chars = (omega arith, refl, (omega arith, refl, tt));
}

labels_behind-AllLabels : AllLabels labels_behind
unfolding AllLabels NoDot
labels_behind-AllLabels =
    (record { some_chars = omega arith; short = omega arith; chars = (omega arith, refl, tt) }, tt)

abbrev no_bytes : Writing
no_bytes = record { buf = λ i. 0; j = 0; table = none }

name_parse-dnsname_to_labels_example :
    Done
      (λ w.
        (w.j ≡ 0 + length (join first_label labels_behind) + 2)
        × ((i : ℕ) → i < 0 → w.buf i ≡ 0)
        × (name_parse w.buf 100 0 256 ≡ some (ok (join first_label labels_behind, w.j))))
      (dnsname_to_labels true 64 (join first_label labels_behind) no_bytes)
unfolding join
name_parse-dnsname_to_labels_example =
    name_parse-dnsname_to_labels true 64 100 256 first_label labels_behind no_bytes refl
      first_label-IsLabel labels_behind-AllLabels (omega arith) (omega arith) (omega arith)
      (omega arith)

request_parse-evdns_request_data_build_example :
    Then
      (λ w.
        request_parse true w.buf w.j
        ≡ some (
            delivered (record {
              trans_id = 7;
              flags = 0x0100;
              questions =
                  (record { name = join first_label labels_behind; type = 1; class = 1 }) ∷ [];
            })))
      (evdns_request_data_build
        (join first_label labels_behind)
        7
        1
        1
        (λ i. 0)
        (evdns_request_len (length (join first_label labels_behind))))
unfolding join
request_parse-evdns_request_data_build_example =
    request_parse-evdns_request_data_build (λ i. 0) 7 1 1 first_label labels_behind (omega arith)
      (omega arith) (omega arith) first_label-IsLabel labels_behind-AllLabels (omega arith)
