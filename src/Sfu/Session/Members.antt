-- ===== src/Sfu/Session/Members.antt =====
-- Peers that come to a session and go.
use rsfu.Prelude.{
  ◌+◌, false, Option, none, some, List, [], ◌∷◌, String, length, arith, ◌==◌, if◌then◌else◌, ◌≡◌,
  refl, sym, ap, ◌∙◌, Bool-cases, inl, inr,
}
use rsfu.Prelude.Texts.{same, same-cases}
use rsfu.Prelude.Maps.{
  HashMap, lookup, remove, text_key, lookup-insert, lookup-remove_self, lookup-remove_ne,
}
use rsfu.Sfu.Peer.{PeerLocal}
use rsfu.Sfu.Session.{SessionLocal, add_peer, remove_peer, close}

closing_peers :
    (s : SessionLocal)
    → (if length s.peers + length s.relay_peers == 0 then close s else s).peers ≡ s.peers
unfolding close
closing_peers s = elim (Bool-cases (length s.peers + length s.relay_peers == 0)) [
  | inl e ↦ rw e refl
  | inr e ↦ rw e refl
]

-- A peer comes to the session, or goes.
pub data Visit : Type 0 where
  comes goes : PeerLocal → Visit

abbrev pub visit : SessionLocal → Visit → SessionLocal
visit s (comes p) = add_peer s p
visit s (goes p) = remove_peer s p

abbrev pub visit_all : SessionLocal → List Visit → SessionLocal
visit_all s [] = s
visit_all s (v ∷ vs) = visit_all (visit s v) vs

-- Who is there under an id: the last visit of a peer with that id decides.
abbrev pub present : String → List Visit → Option PeerLocal → Option PeerLocal
present id [] o = o
present id (comes p ∷ vs) o = present id vs (if same p.id id then some p else o)
present id (goes p ∷ vs) o = present id vs (if same p.id id then none else o)

-- No peer with that id goes.
abbrev pub Stays : String → List Visit → Type 0
Stays id [] = Unit {0}
Stays id (comes p ∷ vs) = Stays id vs
Stays id (goes p ∷ vs) = (same p.id id ≡ false) × Stays id vs

remove_peer_peers :
    (s : SessionLocal) (p : PeerLocal) → (remove_peer s p).peers ≡ remove s.peers p.id
unfolding remove_peer
remove_peer_peers s p = closing_peers (record s { peers = remove s.peers p.id })

lookup-remove :
    (m : HashMap String PeerLocal) (key other : String)
    → lookup (remove m key) other ≡ (if same key other then none else lookup m other)
lookup-remove m key other = elim (same-cases key other) [
  | inl (t, e) ↦ rw t (ap (λ k. lookup (remove m k) other) e ∙ lookup-remove_self m other)
  | inr (f, _) ↦ rw f (lookup-remove_ne m key other f)
]

lookup-visit :
    (s : SessionLocal) (v : Visit) (vs : List Visit) (id : String)
    → present id vs (lookup (visit s v).peers id) ≡ present id (v ∷ vs) (lookup s.peers id)
unfolding add_peer
lookup-visit s (comes p) vs id = ap (present id vs) (lookup-insert s.peers p.id id p)
lookup-visit s (goes p) vs id =
    ap (present id vs)
      (ap (λ m. lookup m id) (remove_peer_peers s p) ∙ lookup-remove s.peers p.id id)

lookup-visit_all :
    (s : SessionLocal) (vs : List Visit) (id : String)
    → lookup (visit_all s vs).peers id ≡ present id vs (lookup s.peers id)
lookup-visit_all s [] id = refl
lookup-visit_all s (v ∷ vs) id = lookup-visit_all (visit s v) vs id ∙ lookup-visit s v vs id

nobody : (m : HashMap String PeerLocal) (id : String) → length m ≡ 0 → lookup m id ≡ none
unfolding lookup
nobody [] id e = refl
nobody (x ∷ m) id e = absurd (omega (arith, e))

-- While somebody is left, one that goes does not close the session.
visit-closed :
    (s : SessionLocal) (v : Visit) (id : String) (q : PeerLocal)
    → lookup (visit s v).peers id ≡ some q
    → (visit s v).closed ≡ s.closed
unfolding add_peer remove_peer
visit-closed s (comes p) id q e = refl
visit-closed s (goes p) id q e =
    let m = remove s.peers p.id in
    elim (Bool-cases (length m + length s.relay_peers == 0)) [
      | inr f ↦ rw f refl
      | inl t ↦
          let none_left = nobody m id (ground (arith, t)) in
          let there = ap (λ m. lookup m id) (sym (remove_peer_peers s p)) ∙ e in
          absurd (cc (none_left, there))
    ]

visit_all_closed :
    (s : SessionLocal) (vs : List Visit) (id : String) (q : PeerLocal)
    → lookup s.peers id ≡ some q
    → Stays id vs
    → (visit_all s vs).closed ≡ s.closed
visit_all_closed s [] id q e h = refl
visit_all_closed s (comes p ∷ vs) id q e h =
    let next : lookup (add_peer s p).peers id ≡ (if same p.id id then some p else some q) =
      lookup-visit s (comes p) [] id ∙ ap (λ o. if same p.id id then some p else o) e in
    elim (Bool-cases (same p.id id)) [
      | inl t ↦
          visit_all_closed (add_peer s p) vs id p (next ∙ rw t) h
          ∙ visit-closed s (comes p) id p (next ∙ rw t)
      | inr f ↦
          visit_all_closed (add_peer s p) vs id q (next ∙ rw f) h
          ∙ visit-closed s (comes p) id q (next ∙ rw f)
    ]
visit_all_closed s (goes p ∷ vs) id q e (ne, h) =
    let next : lookup (remove_peer s p).peers id ≡ some q =
      lookup-visit s (goes p) [] id ∙ rw ne e in
    visit_all_closed (remove_peer s p) vs id q next h ∙ visit-closed s (goes p) id q next

-- Peers come to a session and go, in any order, any of them more than once or under the same id, while
-- under one id there is a peer at the beginning and no peer of that id goes: under every id the session
-- has the peer that came last, or none where the last visit under the id was that a peer went, or what it
-- had before where there was no visit; and none of the visits closes the session.
pub visit_all-present :
    (s : SessionLocal) (vs : List Visit) (id stays : String) (q : PeerLocal)
    → lookup s.peers stays ≡ some q
    → Stays stays vs
    → (lookup (visit_all s vs).peers id ≡ present id vs (lookup s.peers id))
      × ((visit_all s vs).closed ≡ s.closed)
visit_all-present s vs id stays q e h =
    (lookup-visit_all s vs id, visit_all_closed s vs stays q e h)

-- A peer that joins under the id of another: when the first of the two leaves, the session has no peer of
-- that id any more, so that the second is lost too.
pub remove_peer-add_peer_twice :
    (s : SessionLocal) (p q : PeerLocal)
    → p.id ≡ q.id
    → lookup (remove_peer (add_peer (add_peer s p) q) p).peers q.id ≡ none
unfolding remove_peer
remove_peer-add_peer_twice s p q e =
    let s' : SessionLocal = record (add_peer (add_peer s p) q) {
      peers = remove (add_peer (add_peer s p) q).peers p.id;
    } in
    ap (λ m. lookup m q.id) (closing_peers s')
    ∙ ap (λ k. lookup (remove (add_peer (add_peer s p) q).peers k) q.id) e
    ∙ lookup-remove_self (add_peer (add_peer s p) q).peers q.id
