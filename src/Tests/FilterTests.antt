-- ===== src/Tests/FilterTests.antt =====
-- The filter stage at concrete inputs.
use dnsaur.Prelude.{
  ℕ, ◌+◌, ◌≡◌, ◌≢◌, refl, true, false, Option, none, some, List, [], ◌∷◌, arith, ltb,
}
use dnsaur.Prelude.Bytes.{Bytes, bytes_eq, codes}
use dnsaur.Dns.{
  Request, Msg, Question, blocked, panicked, returned, Handler, qname, servfail, Response,
}
use dnsaur.Pipeline.{chain, recover, chain-recover}
use dnsaur.Filter.DomainSet.{normalize, contains, add, match}
use dnsaur.Filter.DomainSet.Matching.{IsBest, match-IsBest}
use dnsaur.Filter.Ruleset.{
  Regexp, Rule, Ruleset, CompiledList, id_of, compile, compile_rules, compile_rule, evaluate,
  regex_hit, allow_hit, block_hit, excused,
}
use dnsaur.Filter.Ruleset.Order.{action_of, evaluate-action_of}
use dnsaur.Filter.Pauses.{
  Pauses, pause_group, pause_client, no_pauses, unix_milli, pause, restore, paused_until, is_paused,
  find_until,
}
use dnsaur.Filter.Pauses.Deadline.{IsState}
use dnsaur.Filter.Pauses.Restart.{deadline_with, is_paused-pause, is_paused-restore}
use dnsaur.Filter.Engine.{Engine, new_engine, ruleset_of, middleware}
use dnsaur.Filter.Engine.Blocking.{IsSunk, blocks, middleware-IsSunk}
use dnsaur.Tests.Samples.{sample_replies, request, upstream}

abbrev set : List Bytes
set = codes "example.com" ∷ codes "ads.example.com" ∷ []

match_walks :
    (match set (codes "X.ADS.example.com.") ≡ some (codes "ads.example.com"))
    × (match set (codes "notexample.com") ≡ none)
unfolding match
match_walks = (refl, refl)

match-IsBest_example :
    IsBest set (normalize (codes "x.ads.example.com")) (match set (codes "x.ads.example.com"))
match-IsBest_example = match-IsBest set (codes "x.ads.example.com")

abbrev sample_list : CompiledList
sample_list = record {
  id = 4;
  kind = codes "block";
  set = set;
  except = some (codes "ok.example.com" ∷ []);
}

-- Every expression matches nothing but its own source.
abbrev compile_regexp : Bytes → Option Regexp
compile_regexp p = some (record { source = p; match_string = bytes_eq p })

abbrev rules : List Rule
rules =
    (record { id = 1; pattern = codes "Example.com."; is_regex = false; action = codes "allow" })
    ∷ (record { id = 2; pattern = codes "bad.org"; is_regex = false; action = codes "block" })
    ∷ (record { id = 3; pattern = codes "example.com"; is_regex = false; action = codes "allow" })
    ∷ []

abbrev compiled : Ruleset
compiled = compile compile_regexp rules (sample_list ∷ [])

-- The later of two rules of one pattern gives the id; an allow rule beats a block list.
evaluate_rule :
    evaluate compiled (codes "www.example.com")
    ≡ record { action = codes "allow"; rule_id = 3; list_id = 0; matched = codes "example.com" }
unfolding compile compile_rules compile_rule evaluate match add contains normalize id_of regex_hit
    allow_hit block_hit excused bytes_eq
evaluate_rule = refl

evaluate-action_of_example :
    (evaluate compiled (codes "ads.example.com")).action
    ≡ action_of compiled (codes "ads.example.com")
evaluate-action_of_example = evaluate-action_of compiled (codes "ads.example.com")

abbrev held : Pauses
held = record { global = 0; groups = (2, 9000) ∷ (5, 40) ∷ []; clients = (3, 7000) ∷ [] }

held-IsState : IsState held
unfolding find_until
held-IsState = record { groups = (refl, (refl, tt)); clients = (refl, tt) }

paused_until-held : paused_until 8000000000 held 2 3 ≡ some (9000, pause_group)
unfolding paused_until
paused_until-held = refl

is_paused-pause_example :
    is_paused 9000000000 (pause 8000000000 pause_client 3 5000000000 held) 2 3
    ≡ ltb
        (unix_milli 9000000000)
        (deadline_with pause_client 3 (unix_milli (8000000000 + 5000000000)) held 2 3)
is_paused-pause_example =
    is_paused-pause 8000000000 9000000000 pause_client 3 5000000000 held 2 3 (omega arith)
      held-IsState

is_paused-restore_example :
    is_paused 8500000000 (restore 8000000000 held no_pauses) 2 3 ≡ is_paused 8500000000 held 2 3
is_paused-restore_example =
    is_paused-restore 8000000000 8500000000 held 2 3 (omega arith) held-IsState

abbrev pub engine : Engine
engine = record new_engine { groups = (2, compiled) ∷ [] }

abbrev bad_question : Question
bad_question = record { name = codes "bad.org."; qtype = 1; qclass = 1 }

abbrev bad_query : Request ℕ
bad_query = request (codes "bad.org.") 1

middleware-IsSunk_example :
    (blocks 5 engine bad_query ≡ false
      → middleware sample_replies 5 engine upstream bad_query ≡ upstream bad_query)
    × (blocks 5 engine bad_query ≡ true
        → (rs : Ruleset) × (m : Msg) × (ruleset_of engine.groups 2 ≡ some rs)
          × IsSunk sample_replies engine.blocking bad_query.msg m bad_question
          × (middleware sample_replies 5 engine upstream bad_query
              ≡ returned
                  (some (record {
                    msg = some m;
                    decision = blocked;
                    upstream = [];
                    rule_id = (evaluate rs (qname bad_query)).rule_id;
                    list_id = (evaluate rs (qname bad_query)).list_id;
                    matched = (evaluate rs (qname bad_query)).matched;
                  }))
                  none))
middleware-IsSunk_example =
    middleware-IsSunk sample_replies 5 engine upstream bad_query bad_question [] refl

abbrev crash : Handler ℕ
crash req = panicked

chain-recover_example :
    (chain crash (recover sample_replies ∷ []) (request (codes "a.") 1) ≢ panicked)
    × (chain crash [] (request (codes "a.") 1) ≡ panicked
        → chain crash (recover sample_replies ∷ []) (request (codes "a.") 1)
          ≡ returned (some (servfail sample_replies (request (codes "a.") 1))) none)
    × ((resp : Option Response) (err : Option Bytes)
        → chain crash [] (request (codes "a.") 1) ≡ returned resp err
        → chain crash (recover sample_replies ∷ []) (request (codes "a.") 1) ≡ returned resp err)
chain-recover_example = chain-recover sample_replies crash [] (request (codes "a.") 1)
