-- ===== src/Replicated/Cleanup.antt =====
-- internal/replicated/cleanup.go and `clearReplicated` of fsm.go: the node-local rows that refer to
-- a post. A set of posts is given by the test `sel` on their ids.
use watchpost.Base.{
  String, Bool, false, not, ◌&&◌, ◌||◌, none, some, List, ◌==◌, eqb, any, remove, Result, ok, ◌>>=◌,
  ◌>>◌, guard,
}
use watchpost.Store.Rows.{Alert, AlertRef, Child, CollectorKey, Observation, PairingToken, PostRef}
use watchpost.Store.Agents.{PairingRequest, AgentConnection}
use watchpost.Store.Tables.{Local}
use watchpost.Replicated.Op.{Failure, storage}

-- `post_id` selects the row; NULL selects none
unfoldable pub refers : (String → Bool) → PostRef → Bool
refers sel row = elim row.post_id [ none ↦ false | some p ↦ sel p ]

-- a row whose parent is among the selected rows
unfoldable pub child_of : (String → Bool) → List PostRef → Child → Bool
unfolding refers any
child_of sel parents row = any (λ p. p.id == row.parent && refers sel p) parents

unfoldable pub alert_of : (String → Bool) → List Alert → AlertRef → Bool
unfolding any
alert_of sel alerts row = any (λ a. eqb a.id row.alert_id && sel a.post_id) alerts

unfoldable pub delete_conversations : (String → Bool) → Local → Local
unfolding child_of remove
delete_conversations sel l = record l {
  conversation_messages = remove (child_of sel l.conversations) l.conversation_messages;
  conversations = remove (refers sel) l.conversations;
}

unfoldable pub delete_action_requests : (String → Bool) → Local → Local
unfolding refers remove
delete_action_requests sel l = record l { action_requests = remove (refers sel) l.action_requests }

unfoldable pub delete_device_profiles : (String → Bool) → Local → Local
unfolding child_of remove
delete_device_profiles sel l = record l {
  device_profile_oids = remove (child_of sel l.device_profiles) l.device_profile_oids;
  device_profiles = remove (refers sel) l.device_profiles;
}

unfoldable pub delete_alerts : (String → Bool) → Local → Local
unfolding alert_of remove
delete_alerts sel l = record l {
  notification_deliveries = remove (alert_of sel l.alerts) l.notification_deliveries;
  incident_alerts = remove (alert_of sel l.alerts) l.incident_alerts;
  alerts = remove (λ (a : Alert). sel a.post_id) l.alerts;
}

unfoldable pub delete_observations : (String → Bool) → Local → Local
unfolding remove
delete_observations sel l = record l {
  observations = remove (λ (o : Observation). sel o.post_id) l.observations;
}

unfoldable pub delete_pairing_tokens : (String → Bool) → Local → Local
unfolding remove
delete_pairing_tokens sel l = record l {
  collector_pairing_tokens =
      remove (λ (t : PairingToken). sel t.post_id) l.collector_pairing_tokens;
}

-- observations.collector_id refers to collector_keys(id)
unfoldable pub observed_by : (String → Bool) → List CollectorKey → Observation → Bool
unfolding any
observed_by sel keys o = any (λ k. k.id == o.collector_id && sel k.post_id) keys

unfoldable pub delete_collector_keys : (String → Bool) → Local → Result Failure Local
unfolding observed_by remove
delete_collector_keys sel l = do
  guard (not (any (observed_by sel l.collector_keys) l.observations)) storage
  ok (record l { collector_keys = remove (λ (k : CollectorKey). sel k.post_id) l.collector_keys })

unfoldable pub delete_logs_and_changes : (String → Bool) → Local → Local
unfolding refers remove
delete_logs_and_changes sel l = record l {
  logs = remove (refers sel) l.logs;
  changes = remove (refers sel) l.changes;
}

-- `cleanupNodeLocal`, phase 1 of post.delete
unfoldable pub cleanup_node_local : String → Local → Result Failure Local
unfolding delete_conversations delete_action_requests delete_device_profiles delete_alerts
    delete_observations delete_pairing_tokens delete_collector_keys delete_logs_and_changes
cleanup_node_local post_id l = do
  let sel = λ (p : String). p == post_id
  let l1 = delete_action_requests sel (delete_conversations sel l)
  let l2 = delete_alerts sel (delete_device_profiles sel l1)
  let l3 = delete_pairing_tokens sel (delete_observations sel l2)
  l4 ← delete_collector_keys sel l3
  ok (delete_logs_and_changes sel l4)

-- the node-local statements of `clearReplicated`, for every post
unfoldable pub clear_node_local : (String → Bool) → Local → Result Failure Local
unfolding delete_conversations delete_action_requests delete_device_profiles delete_alerts
    delete_observations delete_pairing_tokens delete_collector_keys delete_logs_and_changes
clear_node_local sel l = do
  let l1 = delete_observations sel (delete_alerts sel l)
  let l2 = delete_action_requests sel (delete_conversations sel l1)
  let l3 = delete_pairing_tokens sel (delete_device_profiles sel l2)
  l4 ← delete_collector_keys sel l3
  ok (delete_logs_and_changes sel l4)

-- a node-local row that keeps a selected post from being deleted
unfoldable pub blocks_post : (String → Bool) → Local → Bool
unfolding refers any
blocks_post sel l =
    any (λ a. sel a.post_id) l.alerts
    || any (λ o. sel o.post_id) l.observations
    || any (refers sel) l.conversations
    || any (refers sel) l.action_requests
    || any (refers sel) l.device_profiles
    || any (λ t. sel t.post_id) l.collector_pairing_tokens
    || any (λ k. sel k.post_id) l.collector_keys
    || any (refers sel) l.logs
    || any (refers sel) l.changes

unfoldable pub asks_for : (String → Bool) → PairingRequest → Bool
asks_for sel row = elim row.post_id [ none ↦ false | some p ↦ sel p ]

-- the node-local tables whose foreign key to posts cascades
unfoldable pub cascade : (String → Bool) → Local → Local
unfolding refers asks_for remove
cascade sel l = record l {
  agent_pairing_requests = remove (asks_for sel) l.agent_pairing_requests;
  agent_connections = remove (λ (a : AgentConnection). sel a.post_id) l.agent_connections;
  check_schedules = remove (refers sel) l.check_schedules;
}
