-- ===== src/Buffer/Examples.antt =====
-- The theorems on buffer.c at concrete inputs.
use test_codes.Prelude.{ℕ, ◌+◌, ◌++◌, refl, true, false, [], ◌∷◌, some, Then, arith}
use test_codes.Buffer.{Chain, Evbuffer, evbuffer_new}
use test_codes.Buffer.Chains.{contents, size, AllFit, AllWritable, EndsIn, AtLast, IsBuffer}
use test_codes.Buffer.Add.{Added, evbuffer_add, evbuffer_add-Added}
use test_codes.Buffer.Drain.{Drained, evbuffer_drain, evbuffer_remove}
use test_codes.Buffer.Drain.Remove.{RemovedBytes, Drained-RemovedBytes}
use test_codes.Buffer.Move.{evbuffer_add_buffer, evbuffer_prepend_buffer, evbuffer_remove_buffer}
use test_codes.Buffer.Move.Whole.{MovedAll, evbuffer_buffer-MovedAll}
use test_codes.Buffer.Move.Part.{MovedPart, evbuffer_remove_buffer-MovedPart}

abbrev letters : Chain
letters = record { buffer = λ i. 65 + i; buffer_len = 4; misalign = 0; off = 4; immutable = false }

abbrev digits : Chain
digits = record { buffer = λ i. 48 + i; buffer_len = 8; misalign = 2; off = 3; immutable = false }

-- Two chains, the second with three bytes of room.
abbrev two_chains : Evbuffer
two_chains = record evbuffer_new {
  chains = letters ∷ digits ∷ [];
  last_with_datap = 1;
  total_len = 7;
  has_callbacks = true;
}

abbrev one_chain : Evbuffer
one_chain = record evbuffer_new { chains = digits ∷ []; total_len = 3 }

two_chains-IsBuffer : IsBuffer two_chains
unfolding AllFit AtLast EndsIn size evbuffer_new
two_chains-IsBuffer = record {
  fits = (omega arith, (omega arith, tt));
  total = refl;
  at_last = (omega arith, omega arith);
  no_add = refl;
  no_del = refl;
}

one_chain-IsBuffer : IsBuffer one_chain
unfolding AllFit AtLast size evbuffer_new
one_chain-IsBuffer = record {
  fits = (omega arith, tt);
  total = refl;
  at_last = refl;
  no_add = refl;
  no_del = refl;
}

two_chains-AllWritable : AllWritable two_chains.chains
unfolding AllWritable
two_chains-AllWritable = (refl, (refl, tt))

one_chain-AllWritable : AllWritable one_chain.chains
unfolding AllWritable
one_chain-AllWritable = (refl, tt)

abbrev memory : ℕ → ℕ
memory i = 0

-- Five bytes do not fit behind the last chain's data, and make a new chain.
evbuffer_add-Added_example :
    Then
      (Added (some memory) two_chains (1 ∷ 2 ∷ 3 ∷ 4 ∷ 5 ∷ []))
      (evbuffer_add (some memory) two_chains (1 ∷ 2 ∷ 3 ∷ 4 ∷ 5 ∷ []))
evbuffer_add-Added_example =
    evbuffer_add-Added (some memory) two_chains (1 ∷ 2 ∷ 3 ∷ 4 ∷ 5 ∷ []) two_chains-IsBuffer
      (λ c last immutable. omega arith)

Drained-RemovedBytes_example :
    Then (Drained two_chains 5) (evbuffer_drain two_chains 5)
    × Then (RemovedBytes two_chains 5) (evbuffer_remove two_chains 5)
Drained-RemovedBytes_example = Drained-RemovedBytes two_chains 5 two_chains-IsBuffer

evbuffer_buffer-MovedAll_example :
    MovedAll one_chain two_chains false
      (contents one_chain.chains ++ contents two_chains.chains)
      (evbuffer_add_buffer one_chain two_chains)
    × MovedAll one_chain two_chains false
        (contents two_chains.chains ++ contents one_chain.chains)
        (evbuffer_prepend_buffer one_chain two_chains)
unfolding evbuffer_new
evbuffer_buffer-MovedAll_example =
    evbuffer_buffer-MovedAll one_chain two_chains one_chain-IsBuffer two_chains-IsBuffer

evbuffer_remove_buffer-MovedPart_example :
    Then
      (MovedPart two_chains one_chain 5)
      (evbuffer_remove_buffer (some memory) two_chains one_chain 5)
evbuffer_remove_buffer-MovedPart_example =
    evbuffer_remove_buffer-MovedPart memory two_chains one_chain 5 two_chains-IsBuffer
      one_chain-IsBuffer two_chains-AllWritable one_chain-AllWritable
