-- ===== src/Common/Creds.antt =====
-- src/common/creds.go: credentials as one text, user:pass@host:port/domain. Texts are lists of bytes.
use mathlib.Core.List.{append_assoc, append-nil}
use mathlib.Core.Path.{subst}
use swifty.Base.{
  ℕ, ◌≡◌, ◌⊎◌, inl, inr, refl, sym, ap, ◌∙◌, false, Option, none, some, [], ◌∷◌, ◌++◌, arith,
}
use swifty.Base.Bytes.{
  Bytes, split_2, has_byte, split_2-found, split_2-missing, split_2-joins, join_2,
}

-- XCreds.
pub record XCreds : Type 0 where
  pub user : Bytes
  pub pass : Bytes
  pub host : Bytes
  pub port : Bytes
  pub domn : Bytes

-- What URL puts after the port.
slash_domain : Bytes → Bytes
slash_domain [] = []
slash_domain (b ∷ d) = b'/' ∷ b ∷ d

-- XCreds.URL, bracketed to the right.
pub url : XCreds → Bytes
unfolding slash_domain
url xc =
    xc.user
    ++ (b':' ∷ (xc.pass ++ (b'@' ∷ (xc.host ++ (b':' ∷ (xc.port ++ slash_domain xc.domn))))))

or_nothing : Option Bytes → Bytes
or_nothing none = []
or_nothing (some d) = d

-- ParseXCreds from the port on, from the host on, and from the password on; none for an index out of range.
parse_port : Bytes → Bytes → Bytes → Bytes → XCreds
unfolding or_nothing
parse_port user pass host s =
    let (port, domn) = split_2 b'/' s in
    record { user = user; pass = pass; host = host; port = port; domn = or_nothing domn }

parse_host : Bytes → Bytes → Bytes × Option Bytes → Option XCreds
unfolding parse_port
parse_host user pass (host, none) = none
parse_host user pass (host, some s) = some (parse_port user pass host s)

parse_pass : Bytes → Bytes × Option Bytes → Option XCreds
unfolding parse_host
parse_pass user (pass, none) = none
parse_pass user (pass, some s) = parse_host user pass (split_2 b':' s)

parse_user : Bytes × Option Bytes → Option XCreds
unfolding parse_pass
parse_user (user, none) = none
parse_user (user, some s) = parse_pass user (split_2 b'@' s)

-- ParseXCreds.
pub parse_x_creds : Bytes → Option XCreds
unfolding parse_user
parse_x_creds s = parse_user (split_2 b':' s)

-- Fields that hold no separator that ends them.
pub record IsPlain (xc : XCreds) : Type 0 where
  pub user_plain : has_byte b':' xc.user ≡ false
  pub pass_plain : has_byte b'@' xc.pass ≡ false
  pub host_plain : has_byte b':' xc.host ≡ false
  pub port_plain : has_byte b'/' xc.port ≡ false

parse_port-url :
    (user pass host port domn : Bytes)
    → has_byte b'/' port ≡ false
    → parse_port user pass host (port ++ slash_domain domn)
      ≡ record { user = user; pass = pass; host = host; port = port; domn = domn }
unfolding parse_port slash_domain
parse_port-url user pass host port [] h = rw (append-nil port, split_2-missing b'/' port h) refl
parse_port-url user pass host port (b ∷ d) h = rw (split_2-found b'/' port (b ∷ d) h) refl

-- ParseXCreds reads back what URL writes of credentials whose user and host have no colon, whose password has no @
-- and whose port has no slash.
parse_x_creds-url : (xc : XCreds) → IsPlain xc → parse_x_creds (url xc) ≡ some xc
unfolding parse_x_creds url parse_user parse_pass parse_host
parse_x_creds-url xc h =
    let after_host = xc.port ++ slash_domain xc.domn in
    let after_pass = xc.host ++ (b':' ∷ after_host) in
    let after_user = xc.pass ++ (b'@' ∷ after_pass) in
    rw
      (
        split_2-found b':' xc.user after_user h.user_plain,
        split_2-found b'@' xc.pass after_pass h.pass_plain,
        split_2-found b':' xc.host after_host h.host_plain,
      )
      (ap some (parse_port-url xc.user xc.pass xc.host xc.port xc.domn h.port_plain))

-- Two texts that are the same, or the same but for a slash at the end.
abbrev IsAlike : Bytes → Bytes → Type 0
IsAlike a s = (a ≡ s) ⊎ (s ≡ a ++ (b'/' ∷ []))

IsAlike-after :
    (x : Bytes) (c : ℕ) (a s : Bytes) → IsAlike a s → IsAlike (x ++ (c ∷ a)) (x ++ (c ∷ s))
IsAlike-after x c a s (inl e) = inl (ap (λ l. x ++ (c ∷ l)) e)
IsAlike-after x c a s (inr e) =
    inr (ap (λ l. x ++ (c ∷ l)) e ∙ sym (append_assoc x (c ∷ a) (b'/' ∷ [])))

IsAlike-port :
    (r : Bytes × Option Bytes)
    → let (port, domn) = r in IsAlike (port ++ slash_domain (or_nothing domn)) (join_2 b'/' r)
unfolding or_nothing slash_domain
IsAlike-port (port, none) = inl (append-nil port)
IsAlike-port (port, some []) = inr (ap (λ l. l ++ (b'/' ∷ [])) (sym (append-nil port)))
IsAlike-port (port, some (b ∷ d)) = inl refl

some_of : (a b : XCreds) → some a ≡ some b → a ≡ b
some_of a b h = cc h

IsAlike-host :
    (user pass : Bytes) (r : Bytes × Option Bytes) (xc : XCreds)
    → parse_host user pass r ≡ some xc
    → IsAlike (url xc) (user ++ (b':' ∷ (pass ++ (b'@' ∷ join_2 b':' r))))
unfolding parse_host parse_port url
IsAlike-host user pass (host, none) xc h = absurd (grind (arith, h))
IsAlike-host user pass (host, some s) xc h =
    let back : IsAlike (let (port, domn) = split_2 b'/' s in port ++ slash_domain (or_nothing domn))
        s =
      subst (IsAlike (let (port, domn) = split_2 b'/' s in port ++ slash_domain (or_nothing domn)))
        (split_2-joins b'/' s) (IsAlike-port (split_2 b'/' s)) in
    subst (λ y. IsAlike (url y) (user ++ (b':' ∷ (pass ++ (b'@' ∷ (host ++ (b':' ∷ s)))))))
      (some_of (parse_port user pass host s) xc h)
      (IsAlike-after user b':' _ _ (IsAlike-after pass b'@' _ _ (IsAlike-after host b':' _ _ back)))

IsAlike-pass :
    (user : Bytes) (r : Bytes × Option Bytes) (xc : XCreds)
    → parse_pass user r ≡ some xc
    → IsAlike (url xc) (user ++ (b':' ∷ join_2 b'@' r))
unfolding parse_pass
IsAlike-pass user (pass, none) xc h = absurd (grind (arith, h))
IsAlike-pass user (pass, some s) xc h =
    subst (λ l. IsAlike (url xc) (user ++ (b':' ∷ (pass ++ (b'@' ∷ l))))) (split_2-joins b':' s)
      (IsAlike-host user pass (split_2 b':' s) xc h)

IsAlike-user :
    (r : Bytes × Option Bytes) (xc : XCreds)
    → parse_user r ≡ some xc
    → IsAlike (url xc) (join_2 b':' r)
unfolding parse_user
IsAlike-user (user, none) xc h = absurd (grind (arith, h))
IsAlike-user (user, some s) xc h =
    subst (λ l. IsAlike (url xc) (user ++ (b':' ∷ l))) (split_2-joins b'@' s)
      (IsAlike-pass user (split_2 b'@' s) xc h)

-- When a text is read without a panic, URL of what is read is that text, less a slash at the end at most.
url-parse_x_creds : (s : Bytes) (xc : XCreds) → parse_x_creds s ≡ some xc → IsAlike (url xc) s
unfolding parse_x_creds
url-parse_x_creds s xc h =
    subst (IsAlike (url xc)) (split_2-joins b':' s) (IsAlike-user (split_2 b':' s) xc h)
