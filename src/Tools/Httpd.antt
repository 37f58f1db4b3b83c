-- ===== src/Tools/Httpd.antt =====
-- utils/httpd.go: the address that is announced, and the handler before the file server.
use cfg.Base.{List, Option, [], if◌then◌else◌, none, some, ◌++◌, ◌==◌, ◌∷◌}
use cfg.Text.{Text, codes, trim_space}

-- publicIP: the body of the answer, or what went wrong; a failure is none.
unfoldable pub public_ip : (failure : Text) → Option (Option Text) → Text
unfolding trim_space
public_ip failure none = codes "publicip:" ++ failure
public_ip failure (some none) = codes "publicip:" ++ failure
public_ip failure (some (some body)) = trim_space body

-- The second result of strings.Cut at a colon
unfoldable pub port_of : Text → Text
port_of [] = []
port_of (c ∷ s) = let rest = port_of s in if c == b':' then s else rest

-- The line that is logged before the server listens
unfoldable pub listening : (addr local public : Text) → Text
unfolding port_of
listening addr local public =
    codes "listening on "
    ++ (addr
        ++ (codes " ("
            ++ (local
                ++ (codes ":"
                    ++ (port_of addr
                        ++ (codes ", "
                            ++ (public ++ (codes ":" ++ (port_of addr ++ codes ").")))))))))

-- The header that the handler sets, whatever is served
abbrev pub policy : Text × Text
policy = (codes "Content-Security-Policy-Report-Only", codes "default-src 'self';")

-- The handler: what is logged, the headers, and the file server's answer
unfoldable pub handle :
    {Reply : Type 0}
    → (serve : (headers : List (Text × Text)) → (path : Text) → Reply) → (quote : Text → Text)
    → (method path remote : Text) → Text × Reply
handle serve quote method path remote = (
  quote (method ++ (codes " " ++ path)) ++ (codes " from " ++ (remote ++ codes ".")),
  serve (policy ∷ []) path,
)
