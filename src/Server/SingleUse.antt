-- ===== src/Server/SingleUse.antt =====
-- A credential is good for one use: crates/favetto/src/ticket.rs and crates/favetto/src/pair.rs.
use favetto.Common.{
  ◌≡◌, ◌≤◌, refl, ap, arith, Bool, false, Bool-cases, inl, inr, Text, text_eq, text_eq_refl, List,
  [], ◌∷◌, ◌++◌, none, some, count_where, delete_where, find?,
}
use favetto.Model.Task.{Time}
use favetto.Server.Credentials.{
  Ticket, TicketStore, unexpired, ticket_valid, code_valid, remove_match, redeem_ticket, Code,
  PairStore, is_code, pair_ttl, issue_code, redeem_code,
}

abbrev matches : Text → Ticket → Bool
matches presented t = text_eq t.token presented

remove_match-one :
    (p : Text) (ts : List Ticket)
    → count_where (matches p) ts ≤ 1
    → count_where (matches p) (remove_match p ts).0 ≡ 0
unfolding remove_match
remove_match-one p [] h = refl
remove_match-one p (t ∷ ts) h = elim (Bool-cases (matches p t)) [
  | inl e ↦ rw e (ground arith)
  | inr e ↦ rw e (rw e (omega (arith, remove_match-one p ts (ground arith))))
]

remove_match-none :
    (p : Text) (ts : List Ticket) → count_where (matches p) ts ≡ 0 → (remove_match p ts).1 ≡ none
unfolding remove_match
remove_match-none p [] h = refl
remove_match-none p (t ∷ ts) h = elim (Bool-cases (matches p t)) [
  | inl e ↦ absurd (ground arith)
  | inr e ↦ rw e (remove_match-none p ts (ground arith))
]

-- A ticket can be redeemed once: if at most one ticket of a store has the presented token, then
-- after its redemption, accepted or not, the token is refused at any time.
pub redeem_ticket_once :
    (presented : Text) (now later : Time) (s : TicketStore)
    → count_where (matches presented) s.tickets ≤ 1
    → (redeem_ticket presented later (redeem_ticket presented now s).0).1 ≡ false
unfolding redeem_ticket
redeem_ticket_once p now later s h =
    ap (ticket_valid s.ttl later)
      (remove_match-none p (remove_match p s.tickets).0 (remove_match-one p s.tickets h))

find-delete : (p : Text) (s : PairStore) → find? (is_code p) (delete_where (is_code p) s) ≡ none
find-delete p [] = refl
find-delete p (c ∷ s) = elim (Bool-cases (is_code p c)) [
  | inl e ↦ rw e (find-delete p s)
  | inr e ↦ rw e (rw e (find-delete p s))
]

find-delete-append :
    (p : Text) (s : PairStore) (c : Code)
    → c.text ≡ p
    → find? (is_code p) (delete_where (is_code p) s ++ c ∷ []) ≡ some c
find-delete-append p [] c e = rw e (rw (text_eq_refl p) refl)
find-delete-append p (x ∷ s) c e = elim (Bool-cases (is_code p x)) [
  | inl e' ↦ rw e' (find-delete-append p s c e)
  | inr e' ↦ rw e' (rw e' (find-delete-append p s c e))
]

-- A pairing code is accepted exactly if it is redeemed within its lifetime of its last issue, and
-- after that redemption, accepted or not, it is refused at any time.
pub redeem_code_once :
    (code : Text) (issued now later : Time) (s : PairStore)
    → let (s', accepted) = redeem_code code now (issue_code code issued s) in
      (accepted ≡ unexpired pair_ttl now issued) × ((redeem_code code later s').1 ≡ false)
unfolding redeem_code issue_code
redeem_code_once code issued now later s = (
  ap (code_valid now) (find-delete-append code s (record { text = code; issued = issued }) refl),
  ap (code_valid later) (
      find-delete code
        (delete_where (is_code code) s ++ record { text = code; issued = issued } ∷ [])),
)
