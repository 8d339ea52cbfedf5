-- ===== src/Server/Keys.antt =====
-- The users and keys over the time that a database is in use: every write that the service's
-- routes and the command cmd/issue-key make (internal/transport, internal/identity/service.go).
pub mod Revoked
use my_token.Base.{Text, Option, List, some}
use my_token.Usage.Event.{Time}
use my_token.Identity.Repo.{User, IdentityTables, IdentityDriver}
use my_token.Identity.Service.{Credentials, issue_api_key_for_handle, rotate}
use my_token.Bff.Keys as OwnerKeys
use my_token.PublicApi.Keys as AgentKeys

-- The calls that write, by what they are given.
pub data Write : Type 0 where
  issues : (user_uuid key_uuid : Text) (random : Option Text) (now : Time) (handle : Text) → Write
  rotates : (key_uuid : Text) (random : Option Text) (now : Time) (handle : Text) → Write
  agent_revokes owner_revokes : (actor : Option User) (id : Text) (now : Time) → Write

unfoldable pub write : Credentials → IdentityDriver → Write → IdentityTables → IdentityTables
write cr drv (issues user_uuid key_uuid random now handle) t =
    (issue_api_key_for_handle cr drv user_uuid key_uuid random now handle t).1
write cr drv (rotates key_uuid random now handle) t = (rotate cr drv key_uuid random now handle t).1
write cr drv (agent_revokes actor id now) t = (AgentKeys.revoke_key drv actor id now t).1
write cr drv (owner_revokes actor id now) t = (OwnerKeys.revoke_key drv actor id now t).1

-- The tables that some writes lead to, each of them as the database has it.
pub data Reach (cr : Credentials) (s : IdentityTables) : IdentityTables → Type 0 where
  here : Reach cr s s
  next :
      {t : IdentityTables} (drv : IdentityDriver) (w : Write)
      → Reach cr s t
      → Reach cr s (write cr drv w t)
