-- ===== src/Conn/Pool/Granted.antt =====
-- The connections that GetIoConnectionForConnectionData() gives.
use cipster.Base.{
  ℕ, suc, ◌==◌, ==_iff, ◌≡◌, refl, List, [], ◌∷◌, Bool, true, false, not, if◌then◌else◌, IsIn,
}
use mathlib.Core.Path.{subst}
use cipster.Cpf.{is_some}
use cipster.Epath.AppPath.{get_instance_or_conn_pt}
use cipster.Conn.Params.{connection_type, is_multicast}
use cipster.Conn.Path.{consuming_path}
use cipster.Conn.Data.{non_listen_only_not_opened, ConnData}
use cipster.Conn.State.{
  Conn, is_non_existent, InstanceType, exclusive_owner, input_only, listen_only,
}
use cipster.Conn.Close.{World}
use cipster.Conn.Find.{connected_output_assembly, existing_producer}
use cipster.Conn.Pool.{
  ExclusiveOwner, ConnSet, Pools, Choice, chosen, rejected, unmatched, points_of, owner_matches,
  owner_connection, alloc, no_set, set_connection, input_connection, listen_connection, as_type,
  or_else, get_io_connection,
}
use cipster.Conn.Pool.Laws.{
  IsUnowned, SamePoints, IsOfSet, IsOfOwner, Admitted, negated, existing_producer-Produces,
  connected_output_assembly-IsUnowned, owner_matches-OwnerPoints,
}

-- If a connection is chosen, then `A`.
abbrev IfChosen : (ℕ → Type 0) → Choice → Type 0
IfChosen A (chosen p v) = A p
IfChosen A (rejected s) = Unit {0}
IfChosen A unmatched = Unit {0}

no_set-IfChosen : (A : ℕ → Type 0) (o i : Bool) → IfChosen A (no_set o i)
no_set-IfChosen A true true = tt
no_set-IfChosen A true false = tt
no_set-IfChosen A false true = tt
no_set-IfChosen A false false = tt

if-IfChosen :
    (A : ℕ → Type 0) (b : Bool) (x y : Choice)
    → (b ≡ true → IfChosen A x)
    → (b ≡ false → IfChosen A y)
    → IfChosen A (if b then x else y)
if-IfChosen A true x y f g = f refl
if-IfChosen A false x y f g = g refl

alloc-IfChosen :
    (A : ℕ → Type 0) (ps : List ℕ) (w : World)
    → ((p : ℕ) → IsIn p ps → is_non_existent (Conn.state (w.conns p)) ≡ true → A p)
    → IfChosen A (alloc ps w)
unfolding alloc
alloc-IfChosen A [] w h = tt
alloc-IfChosen A (p ∷ ps) w h =
    if-IfChosen A (is_non_existent (Conn.state (w.conns p))) _ _ (λ free. h p (0, refl) free)
      (λ _. alloc-IfChosen A ps w (λ q (i, here) free. h q (suc i, here) free))

set_connection-IfChosen :
    (A : ℕ → Type 0) (take : ConnSet → Choice) (d : ConnData) (es : List ConnSet) (o i : Bool)
    → ((e : ConnSet) → IsIn e es → SamePoints e.points d → IfChosen A (take e))
    → IfChosen A (set_connection take es o i (points_of d))
unfolding set_connection
set_connection-IfChosen A take d [] o i h = no_set-IfChosen A o i
set_connection-IfChosen A take d (e ∷ es) o i h =
    let later : (x : ConnSet) → IsIn x es → SamePoints x.points d → IfChosen A (take x) =
      λ x (n, here) same. h x (suc n, here) same in
    let q = points_of d in
    if-IfChosen A (not (e.points.output == q.output)) _ _
      (λ _. set_connection-IfChosen A take d es o i later)
      (λ out.
        if-IfChosen A (not (e.points.input == q.input)) _ _
          (λ _. set_connection-IfChosen A take d es true i later)
          (λ inp.
            if-IfChosen A (not (e.points.config == q.config)) _ _
              (λ _. set_connection-IfChosen A take d es true true later)
              (λ conf.
                h e (0, refl)
                  (
                    (==_iff _ _).0 (negated _ out),
                    (==_iff _ _).0 (negated _ inp),
                    (==_iff _ _).0 (negated _ conf),
                  ))))

owner-IfChosen :
    (es : List ExclusiveOwner) (d : ConnData) (w : World)
    → IfChosen
        (λ p. IsOfOwner es d p × IsUnowned w (get_instance_or_conn_pt (consuming_path d.conn_path)))
        (owner_connection es d w)
unfolding owner_connection
owner-IfChosen [] d w = tt
owner-IfChosen (e ∷ es) d w =
    let point = get_instance_or_conn_pt (consuming_path d.conn_path) in
    let A : ℕ → Type 0 = λ p. IsOfOwner (e ∷ es) d p × IsUnowned w point in
    if-IfChosen A (not (owner_matches e.points d)) _ _
      (λ _. later e es d w (owner_connection es d w) (owner-IfChosen es d w))
      (λ same.
        if-IfChosen A (is_some (connected_output_assembly point w)) _ _ (λ _. tt)
          (λ free. (
            record {
              owner = e;
              expected = (0, refl);
              matched = owner_matches-OwnerPoints e.points d (negated _ same);
              own = refl;
            },
            connected_output_assembly-IsUnowned point w free,
          )))
  where
    later :
        (e : ExclusiveOwner) (es : List ExclusiveOwner) (d : ConnData) (w : World) (r : Choice)
        → IfChosen
            (λ p.
              IsOfOwner es d p × IsUnowned w (get_instance_or_conn_pt (consuming_path d.conn_path)))
            r
        → IfChosen
            (λ p.
              IsOfOwner (e ∷ es) d p
              × IsUnowned w (get_instance_or_conn_pt (consuming_path d.conn_path)))
            r
    later e es d w (chosen p v) (o, u) = (
      record {
        owner = o.owner;
        expected = (suc o.expected.0, o.expected.1);
        matched = o.matched;
        own = o.own;
      },
      u,
    )
    later e es d w (rejected s) h = tt
    later e es d w unmatched h = tt

of_set :
    (sets : List ConnSet) (d : ConnData) (w : World) (e : ConnSet) (p : ℕ)
    → IsIn e sets
    → SamePoints e.points d
    → IsIn p e.connections
    → is_non_existent (Conn.state (w.conns p)) ≡ true
    → IsOfSet sets d w p
of_set sets d w e p at same inside free = record {
  set = e;
  expected = at;
  matched = same;
  own = inside;
  unused = free;
}

module _ (pools : Pools) (d : ConnData) (w : World) where
  input-IfChosen :
      IfChosen (λ p. Admitted pools d w p input_only) (input_connection pools.input_sets d w)
  unfolding input_connection
  input-IfChosen =
      let A : ℕ → Type 0 = λ p. Admitted pools d w p input_only in
      set_connection-IfChosen A (λ e. alloc e.connections w) d pools.input_sets false false
        (λ e at same.
          alloc-IfChosen A e.connections w
            (λ p inside free. of_set pools.input_sets d w e p at same inside free))

  listen-IfChosen :
      IfChosen (λ p. Admitted pools d w p listen_only) (listen_connection pools.listen_sets d w)
  unfolding listen_connection
  listen-IfChosen =
      let A : ℕ → Type 0 = λ p. Admitted pools d w p listen_only in
      let sets = pools.listen_sets in
      let there = is_some (existing_producer (points_of d).input w) in
      if-IfChosen A (not (is_multicast (connection_type d.producing.ncp))) _ _ (λ _. tt)
        (λ multi.
          set_connection-IfChosen A
            (λ e. if there then alloc e.connections w else rejected non_listen_only_not_opened) d
            sets false false
            (λ e at same.
              if-IfChosen A there _ _
                (λ produced. alloc-IfChosen A e.connections w (λ p inside free. (
                  of_set sets d w e p at same inside free,
                  negated _ multi,
                  existing_producer-Produces (points_of d).input w produced,
                )))
                (λ _. tt)))

  -- The type that the chosen connection has.
  abbrev ChosenAdmitted : Choice → Type 0
  ChosenAdmitted (chosen p v) = Admitted pools d w p (Conn.instance_type (v.conns p))
  ChosenAdmitted (rejected s) = Unit {0}
  ChosenAdmitted unmatched = Unit {0}

  as_type-ChosenAdmitted :
      (t : InstanceType) (r : Choice)
      → IfChosen (λ p. Admitted pools d w p t) r
      → ChosenAdmitted (as_type t r)
  as_type-ChosenAdmitted t (chosen p v) a = rw ((==_iff p p).1 refl) a
  as_type-ChosenAdmitted t (rejected s) a = tt
  as_type-ChosenAdmitted t unmatched a = tt

  or_else-ChosenAdmitted :
      (x y : Choice) → ChosenAdmitted x → ChosenAdmitted y → ChosenAdmitted (or_else x y)
  or_else-ChosenAdmitted (chosen p v) y a b = a
  or_else-ChosenAdmitted (rejected s) y a b = tt
  or_else-ChosenAdmitted unmatched y a b = b

  -- A connection that GetIoConnectionForConnectionData() gives is that of an expected exclusive
  -- owner of the request's points, while no established connection of the list has its output
  -- assembly; or one that was not in use of an expected input only set of these points; or one
  -- that was not in use of such a listen only set, where the request is multicast and a connection
  -- of the list, an exclusive owner or an input only one, has a socket and produces this input
  -- assembly as a multicast. An exclusive owner is also expected where its configuration is -1 and
  -- the request has no configuration path.
  pub get_io_connection-Admitted :
      {p : ℕ} {v : World}
      → get_io_connection pools d w ≡ chosen p v
      → Admitted pools d w p (Conn.instance_type (v.conns p))
  unfolding get_io_connection
  get_io_connection-Admitted h = subst ChosenAdmitted h (
      or_else-ChosenAdmitted (as_type exclusive_owner (owner_connection pools.owners d w)) _
        (as_type-ChosenAdmitted exclusive_owner _ (owner-IfChosen pools.owners d w))
        (or_else-ChosenAdmitted (as_type input_only (input_connection pools.input_sets d w)) _
          (as_type-ChosenAdmitted input_only _ input-IfChosen)
          (or_else-ChosenAdmitted (as_type listen_only (listen_connection pools.listen_sets d w)) _
            (as_type-ChosenAdmitted listen_only _ listen-IfChosen) tt)))
