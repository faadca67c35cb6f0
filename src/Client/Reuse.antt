-- ===== src/Client/Reuse.antt =====
-- The HTTP client that `ATPClient` keeps.
use atp_python.Base.{ℕ, ◌≡◌, Option, arith}
use atp_python.Client.{Client, get_client}

-- Within one event loop, a second request uses the HTTP client of the first and leaves the client as
-- it is.
pub get_client_again :
    (loop : Option ℕ) (c : Client) → get_client loop (get_client loop c).1 ≡ get_client loop c
unfolding get_client
get_client_again loop c = ground arith
