-- ===== src/Conn/Pool.antt =====
-- The expectations of cip/appcontype.cc: classes ExclusiveOwner, InputOnlyConnSet and ListenOnlyConnSet, and
-- GetIoConnectionForConnectionData(). The connections of an expectation are their addresses. A point is
-- a 32 bit pattern, so that the configuration -1 is 2^32 - 1. The connection sets are an object each.
pub mod Laws
pub mod Granted
use cipster.Base.{
  ℕ, ◌-◌, ◌^◌, ◌==◌, ltb, List, [], ◌∷◌, ◌++◌, Bool, true, false, not, ◌&&◌, ◌||◌, Option, none,
  some, if◌then◌else◌, length,
}
use cipster.Cpf.{is_some}
use cipster.Epath.AppPath.{get_instance_or_conn_pt, has_any}
use cipster.Conn.Params.{connection_type, is_multicast}
use cipster.Conn.Path.{config_path, consuming_path, producing_path}
use cipster.Conn.Data.{
  ConnStatus, ownership_conflict, non_listen_only_not_opened, out_of_connections,
  invalid_producing_path, inconsistent_path_combo, End, ConnData,
}
use cipster.Conn.State.{
  Conn, configuring, is_non_existent, InstanceType, exclusive_owner, input_only, listen_only,
}
use cipster.Conn.Close.{World, put_conn}
use cipster.Conn.Find.{connected_output_assembly, existing_producer}

-- The three assemblies of an expectation.
pub record Points : Type 0 where
  pub output : ℕ
  pub input : ℕ
  pub config : ℕ

pub record ExclusiveOwner : Type 0 where
  pub points : Points
  pub connection : ℕ

-- InputOnlyConnSet and ListenOnlyConnSet.
pub record ConnSet : Type 0 where
  pub points : Points
  pub connections : List ℕ

pub record Pools : Type 0 where
  pub owners : List ExclusiveOwner
  pub input_sets : List ConnSet
  pub listen_sets : List ConnSet

-- AddExpectation(), of any of the three.
unfoldable pub add_expectation {ℓ} : {A : Type ℓ} → ℕ → A → List A → Bool × List A
add_expectation limit e es = if ltb (length es) limit then (true, es ++ (e ∷ [])) else (false, es)

-- A connection, NULL with an extended status, or NULL with the status of success.
pub data Choice : Type 0 where
  chosen : ℕ → World → Choice
  rejected : ConnStatus → Choice
  unmatched : Choice

abbrev pub points_of : ConnData → Points
points_of d = record {
  output = get_instance_or_conn_pt (consuming_path d.conn_path);
  input = get_instance_or_conn_pt (producing_path d.conn_path);
  config = get_instance_or_conn_pt (config_path d.conn_path);
}

abbrev pub any_config : ℕ
any_config = 2 ^ 32 - 1

abbrev pub owner_matches : Points → ConnData → Bool
owner_matches e d =
    let q = points_of d in
    (e.output == q.output)
    && ((e.input == q.input)
        && ((e.config == q.config)
            || ((e.config == any_config) && not (has_any (config_path d.conn_path)))))

-- ExclusiveOwner::GetConnection().
unfoldable pub owner_connection : List ExclusiveOwner → ConnData → World → Choice
unfolding connected_output_assembly
owner_connection [] d w = unmatched
owner_connection (e ∷ es) d w =
    let rest = owner_connection es d w in
    if not (owner_matches e.points d)
    then rest
    else if is_some (connected_output_assembly (points_of d).output w)
    then rejected ownership_conflict
    else chosen e.connection w

-- Alloc().
unfoldable pub alloc : List ℕ → World → Choice
alloc [] w = rejected out_of_connections
alloc (p ∷ ps) w =
    let rest = alloc ps w in
    let c = w.conns p in
    if is_non_existent c.state
    then chosen p (put_conn p (record c { state = configuring }) w)
    else rest

-- What the flags output_matches and input_matches say at the end of the loop.
abbrev pub no_set : Bool → Bool → Choice
no_set output_matches input_matches =
    if input_matches
    then rejected inconsistent_path_combo
    else if output_matches
    then rejected invalid_producing_path
    else unmatched

-- The loop of both GetConnection(), with what is done with the set that matches.
unfoldable pub set_connection : (ConnSet → Choice) → List ConnSet → Bool → Bool → Points → Choice
set_connection take [] output_matches input_matches q = no_set output_matches input_matches
set_connection take (e ∷ es) output_matches input_matches q =
    let other = set_connection take es output_matches input_matches q in
    let same_output = set_connection take es true input_matches q in
    let same_input = set_connection take es true true q in
    if not (e.points.output == q.output)
    then other
    else if not (e.points.input == q.input)
    then same_output
    else if not (e.points.config == q.config)
    then same_input
    else take e

-- InputOnlyConnSet::GetConnection().
unfoldable pub input_connection : List ConnSet → ConnData → World → Choice
unfolding alloc set_connection
input_connection es d w = set_connection (λ e. alloc e.connections w) es false false (points_of d)

-- ListenOnlyConnSet::GetConnection().
unfoldable pub listen_connection : List ConnSet → ConnData → World → Choice
unfolding alloc set_connection existing_producer connection_type
listen_connection es d w =
    let has_producer = is_some (existing_producer (points_of d).input w) in
    if not (is_multicast (connection_type d.producing.ncp))
    then rejected non_listen_only_not_opened
    else set_connection
        (λ e. if has_producer then alloc e.connections w else rejected non_listen_only_not_opened)
        es false false (points_of d)

abbrev pub as_type : InstanceType → Choice → Choice
as_type t (chosen p w) = chosen p (put_conn p (record (w.conns p) { instance_type = t }) w)
as_type t (rejected s) = rejected s
as_type t unmatched = unmatched

abbrev pub or_else : Choice → Choice → Choice
or_else (chosen p w) next = chosen p w
or_else (rejected s) next = rejected s
or_else unmatched next = next

-- GetIoConnectionForConnectionData().
unfoldable pub get_io_connection : Pools → ConnData → World → Choice
unfolding owner_connection input_connection listen_connection
get_io_connection pools d w =
    or_else (as_type exclusive_owner (owner_connection pools.owners d w)) (
      or_else (as_type input_only (input_connection pools.input_sets d w)) (
        or_else (as_type listen_only (listen_connection pools.listen_sets d w))
          (rejected inconsistent_path_combo)))
