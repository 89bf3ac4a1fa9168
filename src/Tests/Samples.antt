-- ===== src/Tests/Samples.antt =====
-- Concrete values for what the development takes as parameters, and a few messages.
use dnsaur.Prelude.{
  ℕ, ◌-◌, Bool, false, ◌&&◌, none, some, List, [], ◌∷◌, ◌++◌, length, drop, if◌then◌else◌, is_empty,
  leb,
}
use dnsaur.Prelude.Bytes.{Bytes, bytes_eq, codes, dot, trim_dot, join_dots, to_lower}
use dnsaur.Prelude.Text.{split}
use dnsaur.Dns.{
  Rr, RData, Msg, Request, Outcome, returned, Replies, forwarded, type_a, type_ns, type_cname,
  type_aaaa, class_inet,
}
use dnsaur.Zones.{DnsLib}

abbrev pub sample_replies : Replies
sample_replies = record {
  set_reply = λ m. record m { authoritative = false; rcode = 0; answer = []; ns = []; extra = [] };
  set_rcode = λ m rcode. record m {
    authoritative = false;
    rcode = rcode;
    answer = [];
    ns = [];
    extra = [];
  };
}

-- Names without escapes.
abbrev labels_of : Bytes → List Bytes
labels_of name = let t = trim_dot name in if is_empty t then [] else split dot t

abbrev sub_domain : List Bytes → List Bytes → Bool
sub_domain parent child =
    leb (length parent) (length child)
    && bytes_eq (join_dots (drop (length child - length parent) child)) (join_dots parent)

abbrev type_of : Bytes → ℕ
type_of t =
    if bytes_eq t (codes "A")
    then type_a
    else if bytes_eq t (codes "NS")
    then type_ns
    else if bytes_eq t (codes "CNAME")
    then type_cname
    else if bytes_eq t (codes "AAAA")
    then type_aaaa
    else 0

abbrev rdata_of : Bytes → Bytes → RData
rdata_of t r =
    if bytes_eq t (codes "A")
    then RData.a r
    else if bytes_eq t (codes "NS")
    then RData.ns r
    else if bytes_eq t (codes "CNAME")
    then RData.cname r
    else RData.other r

abbrev pub sample_lib : DnsLib
sample_lib = record {
  fqdn = λ s. trim_dot s ++ dot ∷ [];
  split_domain_name = labels_of;
  count_label = λ s. length (labels_of s);
  is_sub_domain = λ parent child. sub_domain (labels_of parent) (labels_of child);
  canonical_name = λ s. to_lower (trim_dot s ++ dot ∷ []);
  string_to_type = type_of;
  new_rr = λ owner ttl t r. some (record {
    name = owner;
    rtype = type_of t;
    class = class_inet;
    ttl = ttl;
    rdata = rdata_of t r;
  });
}

abbrev pub ask : Bytes → ℕ → Msg
ask name qtype = record {
  id = 7;
  authoritative = false;
  truncated = false;
  compress = false;
  rcode = 0;
  question = (record { name = name; qtype = qtype; qclass = class_inet }) ∷ [];
  answer = [];
  ns = [];
  extra = [];
}

abbrev pub request : Bytes → ℕ → Request ℕ
request name qtype = record {
  msg = ask name qtype;
  client_ip = 10;
  client = record { id = 3; name = codes "tv"; group_id = 2; group_name = codes "kids" };
}

abbrev pub address : Bytes → ℕ → Rr
address name ttl = record {
  name = name;
  rtype = type_a;
  class = class_inet;
  ttl = ttl;
  rdata = RData.a (codes "192.0.2.1");
}

abbrev pub answered : Bytes → ℕ → Msg
answered name ttl = record (ask name type_a) { answer = address name ttl ∷ [] }

-- A stage below that forwards.
abbrev pub upstream : Request ℕ → Outcome
upstream req =
    returned
      (some (record {
        msg = some (answered (codes "www.example.com.") 60);
        decision = forwarded;
        upstream = codes "9.9.9.9";
        rule_id = 0;
        list_id = 0;
        matched = [];
      }))
      none
