-- ===== src/Rest/Create.antt =====
-- The constructor of `RestAPI` in eigerApp/src/restApi.cpp, which asks the detector for the version of
-- its interface. A failure stands for an exception.
use adeiger.Base.{ℕ, Bool, Option, none, some, List, [], replicate, codes, if◌then◌else◌}
use adeiger.Param.Outside.{api_version}
use adeiger.Rest.Outside.{Outside}
use adeiger.Rest.Monad.{
  ok, failure, undefined, out_of_fuel, M, Socket, no_socket, pure, require, ◌>>=◌, ◌>>◌,
}
use adeiger.Rest.Header.{same_text}
use adeiger.Rest.Commands.{Address, get, or_fail}

-- `eigerAPIVersion_t`
pub data ApiVersion : Type 0 where
  api_1_6_0 api_1_8_0 : ApiVersion

-- The sockets are closed; a descriptor is not read before it is set.
unfoldable pub new_sockets : ℕ → List Socket
new_sockets num_sockets = replicate num_sockets no_socket

unfoldable pub known_version : List ℕ → Option ApiVersion
known_version api =
    if same_text api (codes "1.6.0")
    then some api_1_6_0
    else if same_text api (codes "1.8.0")
    then some api_1_8_0
    else none

module _ {o : Outside} where
  -- The status of `get` is not looked at: the text stays empty where it fails.
  unfoldable pub or_empty : M o (List ℕ) → M o (List ℕ)
  or_empty m s =
      let r = m s in
      (
        elim r.0 [
          | ok text ↦ ok text
          | failure ↦ ok []
          | undefined ↦ undefined
          | out_of_fuel ↦ out_of_fuel
        ],
        r.1,
      )

  -- `resolved` says whether the host's name is known. The sockets are those of `new_sockets`.
  unfoldable pub create : Bool → List ℕ → M o (Address × ApiVersion)
  create resolved hostname = do
    require resolved
    response ← or_empty (get (record { hostname = hostname; api = [] }) api_version [] (some 10))
    json ← or_fail (o.parse_json response)
    api ← or_fail (o.find json (codes "value"))
    version ← or_fail (known_version api)
    pure (record { hostname = hostname; api = api }, version)
