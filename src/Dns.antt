-- ===== src/Dns.antt =====
-- DNS messages and the query pipeline's types: internal/dnssrv/pipeline.go, and the part of the
-- message types of github.com/miekg/dns that the modelled code reads and writes.

use dnsaur.Prelude.{ℕ, Option, some, List, [], ◌∷◌, Bool}
use dnsaur.Prelude.Bytes.{Bytes, trim_dot, to_lower}

-- A `dns.Rr` by what the program asserts it to be: the pointer types that it matches on, and the
-- others with their presentation form.
pub data RData : Type 0 where
  a : Bytes → RData
  aaaa : Bytes → RData
  ns : Bytes → RData
  cname : Bytes → RData
  ptr : Bytes → RData
  soa : Bytes → Bytes → ℕ → ℕ → ℕ → ℕ → ℕ → RData
  opt : Bytes → RData
  other : Bytes → RData

-- `dns.RR_Header` with the rdata under it.
pub record Rr : Type 0 where
  pub name : Bytes
  pub rtype : ℕ
  pub class : ℕ
  pub ttl : ℕ
  pub rdata : RData

pub record Question : Type 0 where
  pub name : Bytes
  pub qtype : ℕ
  pub qclass : ℕ

-- `dns.Msg`.
pub record Msg : Type 0 where
  pub id : ℕ
  pub authoritative : Bool
  pub truncated : Bool
  pub compress : Bool
  pub rcode : ℕ
  pub question : List Question
  pub answer : List Rr
  pub ns : List Rr
  pub extra : List Rr

-- The IANA numbers behind the constants of package dns.
abbrev pub type_a : ℕ
type_a = 1

abbrev pub type_ns : ℕ
type_ns = 2

abbrev pub type_cname : ℕ
type_cname = 5

abbrev pub type_soa : ℕ
type_soa = 6

abbrev pub type_ptr : ℕ
type_ptr = 12

abbrev pub type_aaaa : ℕ
type_aaaa = 28

abbrev pub type_opt : ℕ
type_opt = 41

abbrev pub class_inet : ℕ
class_inet = 1

abbrev pub rcode_success : ℕ
rcode_success = 0

abbrev pub rcode_server_failure : ℕ
rcode_server_failure = 2

abbrev pub rcode_name_error : ℕ
rcode_name_error = 3

-- `Decision`.
pub data Decision : Type 0 where
  blocked authoritative cached stale forwarded error : Decision

pub record ClientInfo : Type 0 where
  pub id : ℕ
  pub name : Bytes
  pub group_id : ℕ
  pub group_name : Bytes

-- `Request`, over the type of the client's address (`netip.Addr`).
pub record Request (Addr : Type 0) : Type 0 where
  pub msg : Msg
  pub client_ip : Addr
  pub client : ClientInfo

-- `Response`; `none` is the nil message.
pub record Response : Type 0 where
  pub msg : Option Msg
  pub decision : Decision
  pub upstream : Bytes
  pub rule_id : ℕ
  pub list_id : ℕ
  pub matched : Bytes

-- What a handler's call ends in: the pair that it returns, nil pointers being `none`, or a panic.
pub data Outcome : Type 0 where
  returned : Option Response → Option Bytes → Outcome
  panicked : Outcome

abbrev pub Handler : Type 0 → Type 0
Handler Addr = Request Addr → Outcome

abbrev pub Middleware : Type 0 → Type 0
Middleware Addr = Handler Addr → Handler Addr

-- `m.SetReply(req)` and `m.SetRcode(req, rcode)` on a new message m, which package dns implements.
pub record Replies : Type 0 where
  pub set_reply : Msg → Msg
  pub set_rcode : Msg → ℕ → Msg

first_name : List Question → Bytes
first_name [] = []
first_name (q ∷ _) = to_lower (trim_dot q.name)

first_type : List Question → ℕ
first_type [] = 0
first_type (q ∷ _) = q.qtype

module _ {Addr : Type 0} where
  -- `Request.QName`.
  unfoldable pub qname : Request Addr → Bytes
  unfolding first_name
  qname req = first_name req.msg.question

  -- `Request.QType`.
  unfoldable pub qtype : Request Addr → ℕ
  unfolding first_type
  qtype req = first_type req.msg.question

  -- `Servfail`.
  unfoldable pub servfail : Replies → Request Addr → Response
  servfail lib req = record {
    msg = some (lib.set_rcode req.msg rcode_server_failure);
    decision = error;
    upstream = [];
    rule_id = 0;
    list_id = 0;
    matched = [];
  }
