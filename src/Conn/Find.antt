-- ===== src/Conn/Find.antt =====
-- The connections of the list that are looked for: FindExistingMatchingConnection(), TriggerConnections() and
-- the tests of cip/cipconnectionmanager.cc, and GetExistingProducerMulticastConnection(),
-- ConnectionWithSameConfigPointExists() and CloseAllConnections() of cip/appcontype.cc.
pub mod Laws
pub mod Scan
use cipster.Base.{
  ℕ, zero, suc, ◌==◌, leb, Bool, true, false, not, ◌&&◌, ◌||◌, Option, none, some, if◌then◌else◌,
  length,
}
use cipster.Cpf.{is_some}
use cipster.Router.Notify.{EipStatus, status_ok, status_error}
use cipster.Epath.AppPath.{get_instance_or_conn_pt}
use cipster.Conn.Box.Chain.{head_of}
use cipster.Conn.Params.{trigger_type, application}
use cipster.Conn.Path.{config_path, consuming_path}
use cipster.Conn.Data.{ConnData, triad_equals}
use cipster.Conn.State.{Conn, is_established, may_master, remaining, set_transmission_timer}
use cipster.Conn.Close.{World, put_conn, input_point, is_multicast_producer, find_conn, close_conn}

abbrev pub output_point : Conn → ℕ
output_point c = get_instance_or_conn_pt (consuming_path c.params.conn_path)

abbrev pub config_point : Conn → ℕ
config_point c = get_instance_or_conn_pt (config_path c.params.conn_path)

-- FindExistingMatchingConnection().
unfoldable pub find_matching : ConnData → World → Option ℕ
unfolding find_conn triad_equals
find_matching d w =
    find_conn (λ c. is_established c.state && triad_equals d.triad c.params.triad) w.conns w.active

-- GetConnectedOutputAssembly().
unfoldable pub connected_output_assembly : ℕ → World → Option ℕ
unfolding find_conn
connected_output_assembly id w =
    find_conn (λ c. is_established c.state && (output_point c == id)) w.conns w.active

-- IsConnectedInputAssembly() and IsConnectedOutputAssembly().
unfoldable pub is_connected_input : ℕ → World → Bool
unfolding find_conn
is_connected_input id w = is_some (find_conn (λ c. id == input_point c) w.conns w.active)

unfoldable pub is_connected_output : ℕ → World → Bool
unfolding find_conn
is_connected_output id w = is_some (find_conn (λ c. id == output_point c) w.conns w.active)

abbrev pub masters_input : ℕ → Conn → Bool
masters_input point c =
    may_master c.instance_type
    && ((point == input_point c) && (is_multicast_producer c && is_some c.producing_socket))

-- GetExistingProducerMulticastConnection().
unfoldable pub existing_producer : ℕ → World → Option ℕ
unfolding find_conn
existing_producer point w = find_conn (masters_input point) w.conns w.active

-- ConnectionWithSameConfigPointExists().
unfoldable pub same_config_point_exists : ℕ → World → Bool
unfolding find_conn
same_config_point_exists point w =
    is_some (find_conn (λ c. point == config_point c) w.conns w.active)

-- The transmission is set to the time at which the inhibit time has passed.
abbrev pub trigger_found : ℕ → Option ℕ → World → EipStatus × World
trigger_found now none w = (status_error, w)
trigger_found now (some p) w =
    let c = w.conns p in
    if trigger_type c.params.trigger == application
    then (status_ok, put_conn p (set_transmission_timer now (remaining c.inhibit_timer now) c) w)
    else (status_error, w)

-- TriggerConnections().
unfoldable pub trigger_connections : ℕ → ℕ → ℕ → World → EipStatus × World
unfolding find_conn set_transmission_timer
trigger_connections now output input w =
    trigger_found now
      (find_conn (λ c. (output == output_point c) && (input == input_point c)) w.conns w.active) w

-- The loop of CloseAllConnections(), with the rounds that are left.
unfoldable pub close_heads : ℕ → Option ℕ → World → World
unfolding close_conn
close_heads zero head w = w
close_heads (suc fuel) none w = w
close_heads (suc fuel) (some p) w =
    let after = close_conn p w in close_heads fuel (head_of after.active) after

-- CloseAllConnections().
unfoldable pub close_all_connections : World → World
unfolding close_heads
close_all_connections w = close_heads (length w.active) (head_of w.active) w
