-- ===== src/Conn/Pool/Laws.antt =====
-- What lets a connection in, and what the searches for it say.
use cipster.Base.{
  ℕ, ◌-◌, ◌^◌, ◌==◌, ==_iff, ◌≡◌, ◌≢◌, refl, List, Bool, true, false, not, ◌&&◌, ◌||◌, ◌⊎◌, inl,
  inr, Option, none, some, IsIn,
}
use cipster.Cpf.{is_some}
use cipster.Epath.AppPath.{get_instance_or_conn_pt, has_any}
use cipster.Conn.Box.Chain.{member}
use cipster.Conn.Params.{connection_type, is_multicast}
use cipster.Conn.Path.{config_path, consuming_path, producing_path}
use cipster.Conn.Data.{End, ConnData}
use cipster.Conn.State.{
  Conn, is_established, is_non_existent, may_master, InstanceType, explicit, exclusive_owner,
  input_only, listen_only,
}
use cipster.Conn.Close.{World, is_multicast_producer}
use cipster.Conn.Find.{output_point, masters_input, connected_output_assembly, existing_producer}
use cipster.Conn.Find.Scan.{find_conn-some, find_conn-none}
use cipster.Conn.Pool.{ExclusiveOwner, ConnSet, Pools, Points, owner_matches}

-- A connection of the list that produces a multicast for an input assembly, and has the socket for it.
pub record Produces (w : World) (point q : ℕ) : Type 0 where
  pub listed : member q w.active ≡ true
  pub masters :
      (Conn.instance_type (w.conns q) ≡ exclusive_owner)
      ⊎ (Conn.instance_type (w.conns q) ≡ input_only)
  pub produced :
      point
      ≡ get_instance_or_conn_pt (producing_path (ConnData.conn_path (Conn.params (w.conns q))))
  pub multicasts :
      is_multicast (connection_type (End.ncp (ConnData.producing (Conn.params (w.conns q))))) ≡ true
  pub socket : is_some (Conn.producing_socket (w.conns q)) ≡ true

-- No established connection of the list has the output assembly.
abbrev pub IsUnowned : World → ℕ → Type 0
IsUnowned w point =
    (q : ℕ)
    → member q w.active ≡ true
    → is_established (Conn.state (w.conns q)) ≡ true
    → get_instance_or_conn_pt (consuming_path (ConnData.conn_path (Conn.params (w.conns q))))
      ≢ point

-- The three points of a request are those of an expectation; for an exclusive owner any request without
-- a configuration path may do.
abbrev pub SamePoints : Points → ConnData → Type 0
SamePoints e d =
    (e.output ≡ get_instance_or_conn_pt (consuming_path d.conn_path))
    × (e.input ≡ get_instance_or_conn_pt (producing_path d.conn_path))
    × (e.config ≡ get_instance_or_conn_pt (config_path d.conn_path))

abbrev pub OwnerPoints : Points → ConnData → Type 0
OwnerPoints e d =
    (e.output ≡ get_instance_or_conn_pt (consuming_path d.conn_path))
    × (e.input ≡ get_instance_or_conn_pt (producing_path d.conn_path))
    × ((e.config ≡ get_instance_or_conn_pt (config_path d.conn_path))
        ⊎ ((e.config ≡ 2 ^ 32 - 1) × (has_any (config_path d.conn_path) ≡ false)))

-- A connection of one of the sets, of the points of the request, that was not in use.
pub record IsOfSet (sets : List ConnSet) (d : ConnData) (w : World) (p : ℕ) : Type 0 where
  pub set : ConnSet
  pub expected : IsIn set sets
  pub matched : SamePoints set.points d
  pub own : IsIn p set.connections
  pub unused : is_non_existent (Conn.state (w.conns p)) ≡ true

pub record IsOfOwner (owners : List ExclusiveOwner) (d : ConnData) (p : ℕ) : Type 0 where
  pub owner : ExclusiveOwner
  pub expected : IsIn owner owners
  pub matched : OwnerPoints owner.points d
  pub own : owner.connection ≡ p

-- By the type that the connection gets.
abbrev pub Admitted : Pools → ConnData → World → ℕ → InstanceType → Type 0
Admitted pools d w p explicit = ⊥
Admitted pools d w p exclusive_owner =
    IsOfOwner pools.owners d p × IsUnowned w (get_instance_or_conn_pt (consuming_path d.conn_path))
Admitted pools d w p input_only = IsOfSet pools.input_sets d w p
Admitted pools d w p listen_only =
    IsOfSet pools.listen_sets d w p
    × (is_multicast (connection_type d.producing.ncp) ≡ true)
    × ((q : ℕ) × Produces w (get_instance_or_conn_pt (producing_path d.conn_path)) q)

both : (a b : Bool) → (a && b) ≡ true → (a ≡ true) × (b ≡ true)
both true true h = (refl, refl)
both true false h = cc
both false b h = cc

either : (a b : Bool) → (a || b) ≡ true → (a ≡ true) ⊎ (b ≡ true)
either true b h = inl refl
either false b h = inr h

pub negated : (a : Bool) → not a ≡ false → a ≡ true
negated true h = refl
negated false h = cc

denied : (a : Bool) → not a ≡ true → a ≡ false
denied true h = cc
denied false h = refl

is_some-some : (o : Option ℕ) → is_some o ≡ true → (q : ℕ) × (o ≡ some q)
is_some-some none h = cc
is_some-some (some q) h = (q, refl)

is_some-none : (o : Option ℕ) → is_some o ≡ false → o ≡ none
is_some-none none h = refl
is_some-none (some q) h = cc

may_master-type :
    (t : InstanceType) → may_master t ≡ true → (t ≡ exclusive_owner) ⊎ (t ≡ input_only)
may_master-type explicit h = cc
may_master-type exclusive_owner h = inl refl
may_master-type input_only h = inr refl
may_master-type listen_only h = cc

pub existing_producer-Produces :
    (point : ℕ) (w : World)
    → is_some (existing_producer point w) ≡ true
    → (q : ℕ) × Produces w point q
unfolding existing_producer is_multicast_producer
existing_producer-Produces point w h =
    let (q, e) = is_some-some (existing_producer point w) h in
    let (there, good) = find_conn-some (masters_input point) w.conns w.active e in
    let (master, k₁) = both _ _ good in
    let (same, k₂) = both _ _ k₁ in
    let (multi, sock) = both _ _ k₂ in
    (
      q,
      record {
        listed = there;
        masters = may_master-type _ master;
        produced = (==_iff _ _).0 same;
        multicasts = multi;
        socket = sock;
      },
    )

pub connected_output_assembly-IsUnowned :
    (point : ℕ) (w : World)
    → is_some (connected_output_assembly point w) ≡ false
    → IsUnowned w point
unfolding connected_output_assembly
connected_output_assembly-IsUnowned point w h q there live same =
    let seen =
      find_conn-none (λ c. is_established c.state && (output_point c == point)) w.conns w.active q
        (is_some-none (connected_output_assembly point w) h) there in
    cc (rw (live, (==_iff _ point).1 same) at seen)

pub owner_matches-OwnerPoints :
    (e : Points) (d : ConnData) → owner_matches e d ≡ true → OwnerPoints e d
owner_matches-OwnerPoints e d h =
    let (o, k₁) = both _ _ h in
    let (i, k₂) = both _ _ k₁ in
    (
      (==_iff _ _).0 o,
      (==_iff _ _).0 i,
      elim (either _ _ k₂) [
        | inl c ↦ inl ((==_iff _ _).0 c)
        | inr c ↦ let (x, y) = both _ _ c in inr ((==_iff _ _).0 x, denied _ y)
      ],
    )
