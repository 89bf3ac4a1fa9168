-- ===== src/Tests/StageTests.antt =====
-- The whole chain at a concrete query.
use dnsaur.Prelude.{ℕ, ◌≡◌, true, false, none, some, [], ◌∷◌}
use dnsaur.Prelude.Bytes.{codes}
use dnsaur.Dns.{Request, qname, qtype}
use dnsaur.Filter.Engine.{block_reply, ruleset_of}
use dnsaur.Filter.Engine.Blocking.{blocks}
use dnsaur.Filter.Ruleset.{Ruleset, evaluate}
use dnsaur.Zones.{Zone}
use dnsaur.Zones.Answer.{answer}
use dnsaur.Zones.Index.{new_index}
use dnsaur.Zones.Resolver.{zone_reply}
use dnsaur.Zones.Resolver.Claims.{holder}
use dnsaur.Stages.{State, Instants, cached, serve}
use dnsaur.Stages.Order.{known, guarded, serve-order}
use dnsaur.Tests.Samples.{sample_lib, sample_replies, request, upstream}
use dnsaur.Tests.FilterTests.{engine}
use dnsaur.Tests.CacheTests.{filled}
use dnsaur.Tests.ClientTests.{net8, registry}
use dnsaur.Tests.ZoneTests.{zone}

abbrev state : State ℕ (ℕ × ℕ)
state = record {
  registry = registry;
  engine = engine;
  snap = new_index (zone ∷ []);
  cache = filled;
}

abbrev instants : Instants
instants = record { filter = 5000000000; zones = 5001; cache = 10; read = 11; later = 12 }

abbrev query : Request ℕ
query = request (codes "www.example.org.") 1

abbrev query_known : Request ℕ
query_known = known sample_lib sample_replies net8 instants state query

serve-order_example :
    (blocks 5000000000 engine query_known ≡ true
      → (rs : Ruleset) × (ruleset_of engine.groups query_known.client.group_id ≡ some rs)
        × (serve sample_lib sample_replies net8 instants state upstream query
            ≡ guarded sample_lib sample_replies net8 instants state query (
                block_reply sample_replies engine.blocking query_known
                  (evaluate rs (qname query)))))
    × (blocks 5000000000 engine query_known ≡ false
        → (z : Zone) → holder sample_lib (new_index (zone ∷ [])) query_known ≡ some z
        → serve sample_lib sample_replies net8 instants state upstream query
          ≡ guarded sample_lib sample_replies net8 instants state query (
              zone_reply
                (answer sample_lib z
                  (sample_replies.set_reply query.msg)
                  (qname query)
                  (qtype query)
                  5001).0))
    × (blocks 5000000000 engine query_known ≡ false
        → holder sample_lib (new_index (zone ∷ [])) query_known ≡ none
        → serve sample_lib sample_replies net8 instants state upstream query
          ≡ guarded sample_lib sample_replies net8 instants state query
              (cached sample_lib sample_replies net8 instants state upstream query_known))
serve-order_example = serve-order sample_lib sample_replies net8 instants state upstream query
