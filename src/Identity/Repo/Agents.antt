-- ===== src/Identity/Repo/Agents.antt =====
-- `ListAllAgentAPIKeys` (internal/identity/repo.go, with the statement of
-- db/queries/api_keys.sql), which joins the owner's handle to each key.
use my_token.Base.{
  Text, codes, ◌==◌, ◌&&◌, List, [], ◌∷◌, ◌++◌, map, filter, some, if◌then◌else◌, Result, ok, err,
}
use my_token.Usage.Summary.{sort_stable}
use my_token.Identity.Repo.{
  UserRow, ApiKey, ApiKeyRow, RepoError, broken, IdentityTables, IdentityDriver, api_key_from_row,
  is_live, newer,
}

-- The handles of the agents whose key this is.
unfoldable pub agent_handles : List UserRow → ApiKeyRow → List Text
agent_handles users key =
    map (λ u. u.handle) (filter (λ u. u.id == key.user_id && u.role == codes "agent") users)

unfoldable pub join_handles : List UserRow → List ApiKeyRow → List (ApiKeyRow × Text)
unfolding agent_handles
join_handles users [] = []
join_handles users (key ∷ keys) =
    map (λ handle. (key, handle)) (agent_handles users key) ++ join_handles users keys

unfoldable pub with_handle : ApiKeyRow × Text → ApiKey
unfolding api_key_from_row
with_handle (row, handle) = record (api_key_from_row row) { handle = some handle }

unfoldable pub list_all_agent_api_keys :
    IdentityDriver → IdentityTables → Result RepoError (List ApiKey)
unfolding join_handles with_handle
list_all_agent_api_keys drv t =
    if drv.reads_users && drv.reads_keys
    then ok (
        map with_handle (
          sort_stable (λ a b. newer (a.0) (b.0))
            (join_handles t.users (filter is_live t.api_keys))))
    else err broken
