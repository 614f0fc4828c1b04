-- ===== src/Account/Cookies.antt =====
-- The routes of panel/src/api/routes/auth.ts that only deal with cookies.
use troxe_host.Common.{none, some, [], ◌∷◌, Text}
use troxe_host.Auth.Session.{Cookies, no_cookies}

-- `GET /auth/csrf`, from the text of 32 random bytes: the token, and the cookies; the empty cookie is
-- none
unfoldable pub csrf : Text → Cookies → Text × Cookies
csrf fresh cookies = elim cookies.csrf [
  | none ↦ (fresh, record cookies { csrf = some fresh })
  | some t ↦ elim t [
    | [] ↦ (fresh, record cookies { csrf = some fresh })
    | ◌∷◌ c s ↦ (c ∷ s, cookies)
  ]
]

-- `POST /auth/logout`
unfoldable pub logout : Cookies → Cookies
logout cookies = no_cookies
