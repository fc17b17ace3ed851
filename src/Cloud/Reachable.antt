-- ===== src/Cloud/Reachable.antt =====
-- The invariants of the cloud FSM, of every state that it reaches from its start.
use arduino_cloud_connector.Common.{List}
use arduino_cloud_connector.Variables.{Registry}
use arduino_cloud_connector.Cloud.{Env}
use arduino_cloud_connector.Cloud.Machine.{Input, start, run}
use arduino_cloud_connector.Cloud.Published.{IsPublished, run-IsPublished, start-IsPublished}
use arduino_cloud_connector.Cloud.Session.{IsSession, run-IsSession, start-IsSession}

module _ {V : Type 0} (env : Env V) (reg : Registry V) (is : List (Input V)) where
  -- In every state that the cloud FSM reaches from its start, by any inputs and any answers of the
  -- client: the published snapshot has the FSM's state, names the current thing exactly in
  -- SyncingLastValues and Steady, where the thing id is never empty, and each select stands in its
  -- own state.
  pub reachable-IsPublished : IsPublished (run env (start reg) is).at (run env (start reg) is).fsm
  reachable-IsPublished = run-IsPublished env (start reg) is (start-IsPublished reg)

  -- In every state that the cloud FSM reaches from its start, by any inputs and any answers of the
  -- client: the calls made obey the handshake (the command channel on a connection, Device.begin
  -- once commands are heard, the network report and Thing.begin once the device is announced, one
  -- property topic at a time and for a non-empty thing id, LastValues.begin only on an open topic);
  -- from announcing on the FSM is connected, as far as the calls tell, which do not show a lost
  -- connection that is still in the queue, and from awaiting the thing id on announced; and the
  -- open property topics are that of the current thing in Syncing and Steady and none while it
  -- awaits one, an unsubscription counting as done.
  pub reachable-IsSession : IsSession (run env (start reg) is).at (run env (start reg) is).fsm
  reachable-IsSession = run-IsSession env (start reg) is (start-IsSession reg)
