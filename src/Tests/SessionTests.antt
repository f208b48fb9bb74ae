-- ===== src/Tests/SessionTests.antt =====
-- A tracker of two sessions (core/bitmod/session.py), with a conversation's text as its digest.
use bit_mod_ai_inference_cac.Session.Recall.{get_or_create-record}
use bit_mod_ai_inference_cac.Session.Keeps.{run-init-IsConsistent, IsConsistent}
use bit_mod_ai_inference_cac.Prelude.{arith, ◌>>=◌, get_elem?, ◌≡◌, [], some, ◌∷◌, List}
use bit_mod_ai_inference_cac.Session.Ids.{other, dict, blocks, plain, Message}
use bit_mod_ai_inference_cac.AnswerKey.{Text}
use bit_mod_ai_inference_cac.Session.{
  exchange, last_exchange_context, record_at, Op, get_or_create, Tracker, init, run, visit, note,
}
use bit_mod_ai_inference_cac.Tests.KeyTests.{text_discrete}

abbrev salt : Text
salt = b's' ∷ []

abbrev alice : Text
alice = b'a' ∷ []

abbrev bob : Text
bob = b'b' ∷ []

abbrev hello : Message
hello = record { role = some (b'u' ∷ []); content = some (plain (b'h' ∷ [])) }

abbrev answer : Message
answer = record {
  role = some (b'r' ∷ []);
  content = some (blocks (dict (some alice) ∷ other bob ∷ []));
}

abbrev empty_tracker : Tracker
empty_tracker = record { heap = []; sessions = []; max_sessions = 2; instance_salt = salt }

abbrev calls : List Op
calls = visit alice ∷ note 0 alice bob salt ∷ visit bob ∷ visit salt ∷ []

run-init-IsConsistent_example : IsConsistent (run text_discrete calls (init 2 salt))
run-init-IsConsistent_example = run-init-IsConsistent text_discrete 2 salt calls

empty_tracker-IsConsistent : IsConsistent empty_tracker
unfolding run init
empty_tracker-IsConsistent = run-init-IsConsistent text_discrete 2 salt []

get_or_create-record_example :
    let r = (get_or_create text_discrete alice empty_tracker).1 in
    let later = get_or_create text_discrete alice (
      run text_discrete
        (visit bob ∷ [])
        (record_at r alice bob salt (get_or_create text_discrete alice empty_tracker).0)) in
    (later.1 ≡ r)
    × ((get_elem? later.0.heap r >>= (λ s. some (last_exchange_context s)))
        ≡ some (exchange alice bob))
get_or_create-record_example =
    get_or_create-record text_discrete alice alice bob salt (visit bob ∷ []) empty_tracker
      empty_tracker-IsConsistent (omega arith) tt
