-- ===== src/Dns/Query/Delivered.antt =====
-- A query that a client builds reaches the server's callback.
use test_codes.Prelude.Memory.{c_string}
use test_codes.Prelude.{
  ℕ, ◌+◌, ◌*◌, ◌/◌, ◌%◌, ◌^◌, ◌≤◌, ◌<◌, ◌≡◌, refl, ap, ◌==◌, false, ◌++◌, append-nil, true, false,
  List, [], ◌∷◌, none, some, ltb, length, length-append, if_intro, Then, Then-bind, Then-map, arith,
}
use mathlib.Core.Path.{subst}
use test_codes.Prelude.Memory.{slice, Holds, Holds-cons, Holds-append}
use test_codes.Dns.{dot, Writing, Encoded, done, too_long, overflow, append16, dnsname_to_labels}
use test_codes.Dns.Labels.{
  NoDot, IsLabel, AllLabels, join, encoded, length-encoded, Wrote, Wrote-append, memcpy-Wrote, Done,
  dnsname_to_labels-Wrote,
}
use test_codes.Dns.RoundTrip.{parse-encoded}
use test_codes.Dns.Query.{
  append16s, then_words, evdns_request_data_build, evdns_request_len, get16, delivered,
  read_question, question_loop, parse_questions, header, request_parse,
}

-- The bytes of 16-bit numbers.
unfoldable pub words : List ℕ → List ℕ
words [] = []
words (x ∷ xs) = (x / 256 % 256) ∷ (x % 256) ∷ words xs

length-words : (xs : List ℕ) → length (words xs) ≡ 2 * length xs
unfolding words
length-words [] = omega arith
length-words (x ∷ xs) = omega (arith, length-words xs)

append16-Wrote :
    (n x : ℕ) (w : Writing)
    → w.table ≡ none
    → w.j + 2 ≤ n
    → Then (Wrote w (words (x ∷ []))) (append16 n x w)
unfolding append16 words
append16-Wrote n x w e room =
    if_intro (Then (Wrote w (words (x ∷ [])))) (ltb n (w.j + 2)) (λ full. absurd (ground arith))
      (λ fits. memcpy-Wrote w _ e)

append16s-Wrote :
    (n : ℕ) (xs : List ℕ) (w : Writing)
    → w.table ≡ none
    → w.j + 2 * length xs ≤ n
    → Then (Wrote w (words xs)) (append16s n xs w)
unfolding append16s append16 words
append16s-Wrote n [] w e room = record {
  written = unfold slice in refl;
  before = λ i a. refl;
  index = omega arith;
  no_table = e;
}
append16s-Wrote n (x ∷ xs) w e room =
    Then-bind _ _ (append16 n x w) _ (append16-Wrote n x w e (omega arith)) (λ v k.
      Then-map (Wrote v (words xs)) _ (append16s n xs v)
        (append16s-Wrote n xs v k.no_table (omega (arith, k.index, length-words (x ∷ []))))
        (λ u d. Wrote-append w v u (words (x ∷ [])) (words xs) k d))

get16-Holds :
    (packet : ℕ → ℕ) (len j x : ℕ) (xs : List ℕ)
    → x < 2 ^ 16
    → j + 2 ≤ len
    → Holds packet j (words (x ∷ xs))
    → (get16 packet len j ≡ some (x, j + 2)) × Holds packet (j + 2) (words xs)
unfolding get16 words
get16-Holds packet len j x xs small inside held =
    let (a, rest) = Holds-cons packet j (x / 256 % 256) ((x % 256) ∷ words xs) held in
    let (b, rest') = Holds-cons packet (j + 1) (x % 256) (words xs) rest in
    let fits : ltb len (j + 2) ≡ false = ground arith in
    let value : x / 256 % 256 * 256 + x % 256 ≡ x = omega arith in
    let next : j + 1 + 1 ≡ j + 2 = omega arith in (rw (fits, a, b, value) refl, rw next at rest')

header-Holds :
    (packet : ℕ → ℕ) (len a b c d e f : ℕ)
    → a < 2 ^ 16
    → b < 2 ^ 16
    → c < 2 ^ 16
    → d < 2 ^ 16
    → e < 2 ^ 16
    → f < 2 ^ 16
    → 12 ≤ len
    → Holds packet 0 (words (a ∷ b ∷ c ∷ d ∷ e ∷ f ∷ []))
    → header packet len ≡ some (a, b, c, 12)
unfolding header
header-Holds packet len a b c d e f ha hb hc hd he hf inside held =
    let (ra, h1) = get16-Holds packet len 0 a _ ha (omega arith) held in
    let (rb, h2) = get16-Holds packet len 2 b _ hb (omega arith) h1 in
    let (rc, h3) = get16-Holds packet len 4 c _ hc (omega arith) h2 in
    let (rd, h4) = get16-Holds packet len 6 d _ hd (omega arith) h3 in
    let (re, h5) = get16-Holds packet len 8 e _ he (omega arith) h4 in
    let (rf, h6) = get16-Holds packet len 10 f _ hf (omega arith) h5 in
    rw (ra, rb, rc, rd, re, rf) refl

c_string-append : (l r : List ℕ) → NoDot l → c_string r ≡ r → c_string (l ++ r) ≡ l ++ r
unfolding c_string NoDot
c_string-append [] r h e = e
c_string-append (c ∷ l) r h e =
    let more : (c == 0) ≡ false = ground (arith, h.0) in rw (more, c_string-append l r h.2 e) refl

c_string-join :
    (l : List ℕ) (ms : List (List ℕ)) → IsLabel l → AllLabels ms → c_string (join l ms) ≡ join l ms
unfolding c_string join AllLabels
c_string-join l [] h hs =
    subst (λ t. c_string t ≡ t) (append-nil l) (c_string-append l [] h.chars refl)
c_string-join l (m ∷ ms) h hs =
    c_string-append l (dot ∷ join m ms) h.chars (ap (◌∷◌ dot) (c_string-join m ms hs.0 hs.1))

-- A packet that holds one question.
request_parse-Holds :
    (packet : ℕ → ℕ) (len id type class : ℕ) (l : List ℕ) (ms : List (List ℕ))
    → id < 2 ^ 16
    → type < 2 ^ 16
    → class < 2 ^ 16
    → IsLabel l
    → AllLabels ms
    → length (join l ms) ≤ 254
    → 12 + length (join l ms) + 2 + 4 ≤ len
    → Holds packet 0 (words (id ∷ 0x0100 ∷ 1 ∷ 0 ∷ 0 ∷ 0 ∷ []))
    → Holds packet 12 (encoded l ms ++ 0 ∷ [])
    → Holds packet (12 + length (join l ms) + 2) (words (type ∷ class ∷ []))
    → request_parse true packet len
      ≡ some (
          delivered (record {
            trans_id = id;
            flags = 0x0100;
            questions = (record { name = join l ms; type = type; class = class }) ∷ [];
          }))
unfolding request_parse parse_questions question_loop read_question
request_parse-Holds packet len id type class l ms hi ht hc h hs short inside head name tail =
    let name_at = parse-encoded packet len 256 12 l ms h hs name (omega arith) (omega arith) in
    let j = 12 + length (join l ms) + 2 in
    let (rt, h1) = get16-Holds packet len j type _ ht (omega arith) tail in
    let (rc, h2) = get16-Holds packet len (j + 2) class _ hc (omega arith) h1 in
    rw
      (header-Holds packet len id 0x0100 1 0 0 0 hi (omega arith) (omega arith) (omega arith)
        (omega arith) (omega arith) (omega arith) head)
      (rw (name_at, rt, rc, c_string-join l ms h hs) refl)

Done-Then :
    (P : Writing → Type 0) (Q : Writing → Type 0) (n : ℕ) (xs : List ℕ) (e : Encoded)
    → Done P e
    → ((w : Writing) → P w → Then Q (append16s n xs w))
    → Then Q (then_words n xs e)
Done-Then P Q n xs (done w) h k = k w h
Done-Then P Q n xs too_long h k = h
Done-Then P Q n xs overflow h k = h

-- A query that evdns_request_data_build makes in a buffer of evdns_request_len bytes, for a name of at most
-- 254 characters in labels of 1 to 63, reaches the user's callback on the server with its transaction
-- id, the flag that asks for recursion, and the one question, its name, type and class, as they were: the call
-- that builds it succeeds, and request_parse of it, with memory, delivers it.
pub request_parse-evdns_request_data_build :
    (buf : ℕ → ℕ) (id type class : ℕ) (l : List ℕ) (ms : List (List ℕ))
    → id < 2 ^ 16
    → type < 2 ^ 16
    → class < 2 ^ 16
    → IsLabel l
    → AllLabels ms
    → length (join l ms) ≤ 254
    → Then
        (λ w.
          request_parse true w.buf w.j
          ≡ some (
              delivered (record {
                trans_id = id;
                flags = 0x0100;
                questions = (record { name = join l ms; type = type; class = class }) ∷ [];
              })))
        (evdns_request_data_build
          (join l ms)
          id
          type
          class
          buf
          (evdns_request_len (length (join l ms))))
unfolding evdns_request_data_build
request_parse-evdns_request_data_build buf id type class l ms hi ht hc h hs short =
    let n = evdns_request_len (length (join l ms)) in
    let head = id ∷ 0x0100 ∷ 1 ∷ 0 ∷ 0 ∷ 0 ∷ [] in
    let start : Writing = record { buf = buf; j = 0; table = none } in
    let name = encoded l ms ++ 0 ∷ [] in
    let name_len : length name ≡ length (join l ms) + 2 =
      omega (arith, length-append (encoded l ms) (0 ∷ []), length-encoded l ms) in
    Then-bind _ _ (append16s n head start) _ (append16s-Wrote n head start refl (omega arith))
      (λ w k.
        let at_name : w.j ≡ 12 = omega (arith, k.index, length-words head) in
        Done-Then (Wrote w name) _ n (type ∷ class ∷ []) (dnsname_to_labels false n (join l ms) w)
          (dnsname_to_labels-Wrote false n l ms w k.no_table h hs (omega arith) (omega arith))
          (λ v d.
            let at_type : v.j ≡ 12 + length (join l ms) + 2 =
              omega (arith, d.index, at_name, name_len) in
            Then-map (Wrote v (words (type ∷ class ∷ []))) _ (append16s n (type ∷ class ∷ []) v)
              (append16s-Wrote n (type ∷ class ∷ []) v d.no_table (omega arith))
              (λ u e.
                let all =
                  Wrote-append start w u (words head) (name ++ words (type ∷ class ∷ [])) k
                    (Wrote-append w v u name (words (type ∷ class ∷ [])) d e) in
                let (first, others) =
                  Holds-append u.buf 0 (words head) (name ++ words (type ∷ class ∷ []))
                    all.written in
                let (second, third) =
                  Holds-append u.buf (0 + length (words head)) name (words (type ∷ class ∷ []))
                    others in
                let at_second : 0 + length (words head) ≡ 12 = omega (arith, length-words head) in
                let at_third : 0 + length (words head) + length name ≡ 12 + length (join l ms) + 2 =
                  omega (arith, length-words head, name_len) in
                request_parse-Holds u.buf u.j id type class l ms hi ht hc h hs short
                  (omega (arith, e.index, at_type, length-words (type ∷ class ∷ []))) first
                  (subst (λ i. Holds u.buf i name) at_second second)
                  (subst (λ i. Holds u.buf i (words (type ∷ class ∷ []))) at_third third))))
