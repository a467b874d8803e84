-- ===== src/Server/Connections/Links.antt =====
-- server/manager/manager.cpp: the map of connections and the users' own maps agree.
use qchat_server.Base.{
  ℕ, ◌≡◌, ◌≢◌, refl, sym, ap, subst, ◌∙◌, inl, inr, Bool, true, false, ◌&&◌, ◌==◌, if◌then◌else◌,
  none, some, Option-cases, Bool-cases, ==_iff, arith, Result, ok, is_some,
}
use qchat_server.Base.Dict.{
  Dict, id_key, lookup, insert, erase, contains, lookup-insert, lookup-erase,
}
use qchat_server.Room.History.{no_user}
use qchat_server.Server.User.{User, DeviceType, add_connection, remove_connection}
use qchat_server.Server.State.{Server}
use qchat_server.Server.Connections.{
  register_connection, on_found_user, detach, modify_user_of_connection, remove_connection_of,
}

-- Whether the user's own map has the connection.
abbrev pub holds : ℕ → ℕ → Dict ℕ User → Bool
holds u c users = elim (lookup u users) [ none ↦ false | some x ↦ contains c x.connections ]

-- The connection belongs to the user and is not the one of nobody.
abbrev pub belongs : ℕ → ℕ → Dict ℕ ℕ → Bool
belongs u c connections = elim (lookup c connections) [
  | none ↦ false
  | some owner ↦ if owner == no_user then false else owner == u
]

-- A user has exactly the connections that belong to the user.
abbrev pub IsLinked : Server → Type 0
IsLinked s = (u c : ℕ) → holds u c s.users ≡ belongs u c s.connections

-- `register_connection` keeps the maps in agreement.
pub register_connection-IsLinked :
    (c : ℕ) (s : Server) → IsLinked s → IsLinked (register_connection c s).1
unfolding register_connection
register_connection-IsLinked c s h u d = elim (Option-cases (lookup c s.connections)) [
  | inr (owner, e) ↦ rw (e, register_connection) (h u d)
  | inl e ↦ ground (arith, h u d, lookup-insert d c no_user s.connections, e)
]

holds-insert :
    (u v d : ℕ) (x : User) (users : Dict ℕ User)
    → holds v d (insert u x users) ≡ (if u == v then contains d x.connections else holds v d users)
holds-insert u v d x users = ground (arith, lookup-insert v u x users)

contains-insert :
    (u v : ℕ) (x : User) (users : Dict ℕ User)
    → contains u users ≡ true
    → contains v (insert u x users) ≡ contains v users
contains-insert u v x users h = elim (Bool-cases (u == v)) [
  | inl e ↦
      let same : u ≡ v = (==_iff u v).0 e in
      rw (lookup-insert v u x users, e) (sym (subst (λ w. contains w users ≡ true) same h))
  | inr e ↦ rw (lookup-insert v u x users, e)
]

-- What is known of the users' maps when a call has gone through.
record Relinked (f : ℕ → ℕ → Bool) (s : Server) (result : Result (Unit {0}) × Server) : Type 0 where
  returned : result.0 ≡ ok tt
  counter : result.1.new_user_id ≡ s.new_user_id
  connections : result.1.connections ≡ s.connections
  holding : (v d : ℕ) → holds v d result.1.users ≡ f v d
  users : (v : ℕ) → contains v result.1.users ≡ contains v s.users

-- With the connection erased from its owner's map nobody has it.
moved :
    (c owner : ℕ) (x : User) (s : Server)
    → IsLinked s
    → lookup c s.connections ≡ some owner
    → lookup owner s.users ≡ some x
    → (v d : ℕ)
    → (if owner == v then contains d (erase c x.connections) else holds v d s.users)
      ≡ (if c == d then false else holds v d s.users)
moved c owner x s h e found v d =
    rw (lookup-erase d c x.connections)
      (ground (arith, h v c, e, found, same_id c d, same_id owner v))
  where
    same_id : (a b : ℕ) → (a == b) ≡ true → a ≡ b
    same_id a b = (==_iff a b).0

-- The owner's object is there, and loses the connection; then nobody has it.
detach-Relinked :
    (c owner : ℕ) (s : Server)
    → IsLinked s
    → lookup c s.connections ≡ some owner
    → Relinked (λ v d. if c == d then false else holds v d s.users) s (detach c owner s)
detach-Relinked c owner s h e = elim (Bool-cases (owner == no_user)) [
  | inl nobody ↦
      let run : detach c owner s ≡ (ok tt, s) = unfold detach in rw nobody in
      rw run (record {
        returned = refl;
        counter = refl;
        connections = refl;
        holding = λ v d. elim (Bool-cases (c == d)) [
          | inl same ↦
              let eq : c ≡ d = (==_iff c d).0 same in rw same (rw (← eq) (ground (arith, h v c, e)))
          | inr other ↦ rw other
        ];
        users = λ v. refl;
      })
  | inr somebody ↦ elim (Option-cases (lookup owner s.users)) [
    | inl missing ↦ absurd (ground (arith, h owner c))
    | inr (x, found) ↦ elim (Option-cases (lookup c x.connections)) [
      | inl gone ↦ absurd (ground (arith, h owner c))
      | inr (type, held) ↦
          let x' : User = record x { connections = erase c x.connections } in
          let run : detach c owner s ≡ (ok tt, record s { users = insert owner x' s.users }) =
            unfold detach on_found_user remove_connection in ground arith in
          rw run (record {
            returned = refl;
            counter = refl;
            connections = refl;
            holding = λ v d. holds-insert owner v d x' s.users ∙ moved c owner x s h e found v d;
            users = λ v. contains-insert owner v x' s.users (ap is_some found);
          })
    ]
  ]
]

-- A user who is there and has not got the connection gets it.
attach-Relinked :
    (c user : ℕ) (type : DeviceType) (s : Server)
    → contains user s.users ≡ true
    → holds user c s.users ≡ false
    → Relinked
        (λ v d. if user == v && c == d then true else holds v d s.users)
        s
        (on_found_user user (add_connection c type) s)
attach-Relinked c user type s there free = elim (Option-cases (lookup user s.users)) [
  | inl missing ↦ absurd (ground arith)
  | inr (x, found) ↦
      let x' : User = record x { connections = insert c type x.connections } in
      let run : on_found_user user (add_connection c type) s
          ≡ (ok tt, record s { users = insert user x' s.users }) =
        unfold on_found_user add_connection in ground arith in
      rw run (record {
        returned = refl;
        counter = refl;
        connections = refl;
        holding = λ v d.
            holds-insert user v d x' s.users
            ∙ rw (lookup-insert d c type x.connections) (ground (arith, found, (==_iff user v).0));
        users = λ v. contains-insert user v x' s.users there;
      })
]

-- Whose a connection is when it has been given to a user.
belongs-insert :
    (c user v d : ℕ) (connections : Dict ℕ ℕ)
    → user ≢ no_user
    → (if user == v && c == d then true else if c == d then false else belongs v d connections)
      ≡ belongs v d (insert c user connections)
belongs-insert c user v d connections real =
    ground (arith, lookup-insert d c user connections, real)

modify_runs :
    (c user : ℕ) (type : DeviceType) (s : Server) {x : User} {owner : ℕ}
    → lookup user s.users ≡ some x
    → lookup c s.connections ≡ some owner
    → (detach c owner s).0 ≡ ok tt
    → (on_found_user user (add_connection c type) (detach c owner s).1).0 ≡ ok tt
    → let s₂ = (on_found_user user (add_connection c type) (detach c owner s).1).1 in
      modify_user_of_connection c user type s
      ≡ (ok tt, record s₂ { connections = insert c user s₂.connections })
unfolding modify_user_of_connection
modify_runs c user type s found e detached attached = ground arith

-- What is known when a connection has been given to a user.
pub record Modified (c user : ℕ) (s : Server) (result : Result (Unit {0}) × Server) : Type 0 where
  pub returned : result.0 ≡ ok tt
  pub linked : IsLinked result.1
  pub owners :
      (d : ℕ)
      → lookup d result.1.connections ≡ (if c == d then some user else lookup d s.connections)
  pub users : (v : ℕ) → contains v result.1.users ≡ contains v s.users
  pub counter : result.1.new_user_id ≡ s.new_user_id

pub modify_user_of_connection-Modified :
    (c user : ℕ) (type : DeviceType) (s : Server)
    → IsLinked s
    → user ≢ no_user
    → contains user s.users ≡ true
    → contains c s.connections ≡ true
    → Modified c user s (modify_user_of_connection c user type s)
modify_user_of_connection-Modified c user type s h real there known =
    elim (Option-cases (lookup c s.connections)) [
      | inl missing ↦ absurd (ground arith)
      | inr (owner, e) ↦ elim (Option-cases (lookup user s.users)) [
        | inl missing ↦ absurd (ground arith)
        | inr (x, found) ↦
            let s₁ : Server = (detach c owner s).1 in
            let D = detach-Relinked c owner s h e in
            let nobody : holds user c s₁.users ≡ false = D.holding user c ∙ ground (arith) in
            let A = attach-Relinked c user type s₁ (D.users user ∙ there) nobody in
            let s₂ : Server = (on_found_user user (add_connection c type) s₁).1 in
            let run : modify_user_of_connection c user type s
                ≡ (ok tt, record s₂ { connections = insert c user s₂.connections }) =
              modify_runs c user type s found e D.returned A.returned in
            rw run (record {
              returned = refl;
              linked = λ v d.
                  A.holding v d
                  ∙ rw (D.holding v d, h v d, A.connections, D.connections)
                      (belongs-insert c user v d s.connections real);
              owners =
                  λ d. rw (A.connections, D.connections) (lookup-insert d c user s.connections);
              users = λ v. A.users v ∙ D.users v;
              counter = A.counter ∙ D.counter;
            })
      ]
    ]

-- In a server whose maps agree, logging in a registered connection as an existing user succeeds,
-- also when somebody was logged in on it before: the connection then belongs to the user alone, no
-- other connection changes hands, and the maps agree again.
pub modify_user_of_connection-IsLinked :
    (c user : ℕ) (type : DeviceType) (s : Server)
    → IsLinked s
    → user ≢ no_user
    → contains user s.users ≡ true
    → contains c s.connections ≡ true
    → let (r, s') = modify_user_of_connection c user type s in
      (r ≡ ok tt)
      × IsLinked s'
      × ((d : ℕ) → lookup d s'.connections ≡ (if c == d then some user else lookup d s.connections))
modify_user_of_connection-IsLinked c user type s h real there known =
    let m = modify_user_of_connection-Modified c user type s h real there known in
    (m.returned, m.linked, m.owners)

remove_runs :
    (c : ℕ) (s : Server) {owner : ℕ}
    → lookup c s.connections ≡ some owner
    → (detach c owner s).0 ≡ ok tt
    → let s' = (detach c owner s).1 in
      remove_connection_of c s ≡ (ok tt, record s' { connections = erase c s'.connections })
unfolding remove_connection_of
remove_runs c s e detached = ground arith

-- In a server whose maps agree, removing a registered connection succeeds, whoever is logged in on
-- it: the connection is gone, the others stay, the maps agree again, and the users and the next
-- user's id are those of before.
pub remove_connection_of-IsLinked :
    (c : ℕ) (s : Server)
    → IsLinked s
    → contains c s.connections ≡ true
    → let (r, s') = remove_connection_of c s in
      (r ≡ ok tt)
      × IsLinked s'
      × ((d : ℕ) → lookup d s'.connections ≡ (if c == d then none else lookup d s.connections))
      × ((v : ℕ) → contains v s'.users ≡ contains v s.users)
      × (s'.new_user_id ≡ s.new_user_id)
remove_connection_of-IsLinked c s h known = elim (Option-cases (lookup c s.connections)) [
  | inl missing ↦ absurd (ground arith)
  | inr (owner, e) ↦
      let D = detach-Relinked c owner s h e in
      rw (remove_runs c s e D.returned) (
        refl,
        λ v d.
            D.holding v d
            ∙ rw (h v d, D.connections) (ground (arith, lookup-erase d c s.connections)),
        λ d. rw D.connections (lookup-erase d c s.connections),
        D.users,
        D.counter,
      )
]
