-- ===== src/Tests/Workspace.antt =====
-- What the customer and the agent are shown of the bank's record.
use call_sign.Prelude.{
  ◌≡◌, refl, true, Result, is_ok, ok, any, every, select, lookup, values, length,
}
use call_sign.Prelude.Text.{codes, has_length, utf16_length}
use call_sign.Protocol.Finals.{policy_hash}
use call_sign.Protocol.Finals.Credential.{policy_conforms}
use call_sign.Finals.Record.{ContactIntent, InstitutionRecord}
use call_sign.Finals.Model.{MockFds, membership, import_mock_fds, is_assignable, fds_conforms}
use call_sign.Finals.Workspace.{Workspace, workspace_for}
use call_sign.Finals.Workspace.Shown.{IsKeyed}
use call_sign.Finals.Workspace.Isolated.{
  IsOwn, IsAssigned, workspace_for-IsOwn, workspace_for-IsAssigned,
}
use call_sign.Tests.World.{value_of, lib, bank, manager, agent, customer}

keyed : IsKeyed bank.intents
unfolding lookup values
keyed = (refl, tt)

customer-is_ok : is_ok (workspace_for bank customer) ≡ true
unfolding workspace_for membership any lookup
customer-is_ok = refl

agent-is_ok : is_ok (workspace_for bank agent) ≡ true
unfolding workspace_for membership any lookup
agent-is_ok = refl

abbrev for_customer : (w : Workspace) × (workspace_for bank customer ≡ ok w)
for_customer = value_of (workspace_for bank customer) customer-is_ok

abbrev for_agent : (w : Workspace) × (workspace_for bank agent ≡ ok w)
for_agent = value_of (workspace_for bank agent) agent-is_ok

one-authorization : length for_customer.0.authorizations ≡ 1
unfolding workspace_for membership any lookup select values
one-authorization = refl

one-attempt : length for_agent.0.attempts ≡ 1
unfolding workspace_for membership any lookup select values
one-attempt = refl

workspace_for-IsOwn_example : IsOwn customer.user_id for_customer.0
workspace_for-IsOwn_example =
    workspace_for-IsOwn bank customer for_customer.0 keyed refl for_customer.1

workspace_for-IsAssigned_example : IsAssigned agent.user_id for_agent.0
workspace_for-IsAssigned_example =
    workspace_for-IsAssigned bank agent for_agent.0 keyed refl for_agent.1

abbrev contact : MockFds
contact = record {
  id = "second";
  recipient_id = "customer";
  agent_id = "agent";
  service_did = "did:service";
  expires_at = 2000;
}

abbrev import_run : Result (ContactIntent × InstitutionRecord)
import_run = import_mock_fds lib bank manager contact 1000

import-is_ok : is_ok import_run ≡ true
unfolding import_mock_fds membership any lookup fds_conforms is_assignable has_length utf16_length
    codes policy_hash policy_conforms every
import-is_ok = refl

abbrev imported : (x : ContactIntent × InstitutionRecord) × (import_run ≡ ok x)
imported = value_of import_run import-is_ok
