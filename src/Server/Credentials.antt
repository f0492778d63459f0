-- ===== src/Server/Credentials.antt =====
-- The single-use credentials: crates/favetto/src/ticket.rs and crates/favetto/src/pair.rs. A token
-- is its text; the comparison in constant time decides equality. Times are in milliseconds.
use favetto.Common.{
  ℕ, ◌-◌, ◌*◌, ltb, Bool, false, Text, text_eq, List, [], ◌∷◌, ◌++◌, Option, none, some,
  if◌then◌else◌, delete_where, select_where, find?,
}
use favetto.Model.Task.{Time}

pub record Ticket : Type 0 where
  pub token : Text
  pub issued : Time

pub record TicketStore : Type 0 where
  pub ttl : ℕ
  pub tickets : List Ticket

-- `now.duration_since(issued) < self.ttl`
abbrev pub unexpired : ℕ → Time → Time → Bool
unexpired ttl now issued = ltb (now - issued) ttl

-- `TicketStore::issue`, with the token that `Token::generate` gives
unfoldable pub issue_ticket : Text → Time → TicketStore → TicketStore
issue_ticket token now s = record s {
  tickets =
      select_where (λ t. unexpired s.ttl now t.issued) s.tickets
      ++ record { token = token; issued = now } ∷ [];
}

-- The scan and `Vec::remove` of `TicketStore::redeem`: the first ticket that matches, and the
-- others.
unfoldable pub remove_match : Text → List Ticket → List Ticket × Option Ticket
remove_match presented [] = ([], none)
remove_match presented (t ∷ ts) =
    let (rest, found) = remove_match presented ts in
    if text_eq t.token presented then (ts, some t) else (t ∷ rest, found)

abbrev pub ticket_valid : ℕ → Time → Option Ticket → Bool
ticket_valid ttl now none = false
ticket_valid ttl now (some t) = unexpired ttl now t.issued

unfoldable pub redeem_ticket : Text → Time → TicketStore → TicketStore × Bool
unfolding remove_match
redeem_ticket presented now s =
    let (rest, found) = remove_match presented s.tickets in
    (record s { tickets = rest }, ticket_valid s.ttl now found)

-- `PairStore`: at most one entry for a code
pub record Code : Type 0 where
  pub text : Text
  pub issued : Time

abbrev pub PairStore : Type 0
PairStore = List Code

abbrev pub pair_ttl : ℕ
pair_ttl = 60 * 1000

abbrev pub is_code : Text → Code → Bool
is_code text c = text_eq c.text text

-- `HashMap::insert`
unfoldable pub issue_code : Text → Time → PairStore → PairStore
issue_code text now s = delete_where (is_code text) s ++ record { text = text; issued = now } ∷ []

abbrev pub code_valid : Time → Option Code → Bool
code_valid now none = false
code_valid now (some c) = unexpired pair_ttl now c.issued

-- `HashMap::remove`
unfoldable pub redeem_code : Text → Time → PairStore → PairStore × Bool
redeem_code text now s = (delete_where (is_code text) s, code_valid now (find? (is_code text) s))
