-- ===== src/Identity/Access.antt =====
-- Whom `AuthenticateProxy` of internal/identity/manager.go lets in.
use opencode_proxy.Base.{
  ◌≡◌, refl, ap, sym, subst, true, false, List, [], ◌∷◌, ◌++◌, All, Option, none, some, leb, length,
  exists, arith,
}
use opencode_proxy.Text.{Text, text_eq, text_eq_refl}
use opencode_proxy.Time.{Time}
use opencode_proxy.Identity.Passwords.{Hashing}
use opencode_proxy.Identity.{
  Client, DiskState, Instance, written, done, persist, issue_client_token, issued, client_name,
  revoke_client_token, remove_first, has_client_id, client, authenticate_client, authenticate_with,
  authenticate_proxy,
}

-- No way in has the hash.
abbrev pub IsFree : Text → DiskState → Type 0
IsFree hash s =
    (text_eq hash s.proxy_token_hash ≡ false)
    × All (λ c. text_eq hash c.token_hash ≡ false) s.clients

authenticate-append :
    (hash : Text) (cs : List Client) (c : Client)
    → All (λ d. text_eq hash d.token_hash ≡ false) cs
    → text_eq hash c.token_hash ≡ true
    → authenticate_client hash (cs ++ c ∷ []) ≡ some (client c.id c.name)
unfolding authenticate_client
authenticate-append hash [] c a e = rw e refl
authenticate-append hash (d ∷ cs) c a e = rw a.0 (authenticate-append hash cs c a.1 e)

authenticate-free :
    (hash : Text) (cs : List Client)
    → All (λ d. text_eq hash d.token_hash ≡ false) cs
    → authenticate_client hash cs ≡ none
unfolding authenticate_client
authenticate-free hash [] a = refl
authenticate-free hash (d ∷ cs) a = rw a.0 (authenticate-free hash cs a.1)

remove_first-append :
    (id : Text) (cs : List Client) (c : Client)
    → All (λ d. has_client_id id d ≡ false) cs
    → has_client_id id c ≡ true
    → remove_first id (cs ++ c ∷ []) ≡ cs
unfolding remove_first
remove_first-append id [] c a e = rw e refl
remove_first-append id (d ∷ cs) c a e = rw a.0 (ap (λ l. d ∷ l) (remove_first-append id cs c a.1 e))

exists-append :
    (id : Text) (cs : List Client) (c : Client)
    → has_client_id id c ≡ true
    → exists (has_client_id id) (cs ++ c ∷ []) ≡ true
exists-append id [] c e = ground arith
exists-append id (d ∷ cs) c e = ground (arith, exists-append id cs c e)

module _ (h : Hashing) (name id token : Text) (now later : Time) (s : DiskState)
    (file : Option DiskState) where
  abbrev pub held : Instance
  held = record { state = some s; file = file }

  abbrev pub new_client : Client
  new_client = record {
    id = id;
    name = client_name h name;
    token_hash = h.token_hash token;
    created_at = now;
  }

  issue-written :
      leb 100 (length s.clients) ≡ false
      → issue_client_token h written name id token now held ≡ (
        done (new_client, token),
        record { state = some (issued new_client s); file = some (issued new_client s) },
      )
  unfolding issue_client_token persist
  issue-written few = rw few refl

  -- A token that is issued, while fewer than 100 are held and its hash is not in use, lets its client
  -- in under the id and the name it was issued with.
  pub authenticate-issue :
      leb 100 (length s.clients) ≡ false
      → IsFree (h.token_hash token) s
      → authenticate_proxy h token (issue_client_token h written name id token now held).1
        ≡ some (client id (client_name h name))
  unfolding authenticate_proxy
  authenticate-issue few free =
      subst
        (λ r.
          authenticate_with (h.token_hash token) r.1.state ≡ some (client id (client_name h name)))
        (sym (issue-written few))
        (rw free.0 (
          authenticate-append (h.token_hash token) s.clients new_client free.1
            (text_eq_refl (h.token_hash token))))

  revoke-written :
      All (λ d. has_client_id id d ≡ false) s.clients
      → (revoke_client_token written id later (record {
        state = some (issued new_client s);
        file = some (issued new_client s);
      })).1.state
        ≡ some (record s { updated_at = later })
  unfolding revoke_client_token persist
  revoke-written fresh =
      rw (exists-append id s.clients new_client (text_eq_refl id))
        (rw (remove_first-append id s.clients new_client fresh (text_eq_refl id)) refl)

  -- Once it is revoked, the token lets nobody in, and the tokens of the other clients are the ones
  -- from before it was issued.
  pub authenticate-revoke :
      leb 100 (length s.clients) ≡ false
      → IsFree (h.token_hash token) s
      → All (λ d. has_client_id id d ≡ false) s.clients
      → let i =
          (revoke_client_token written id later
            (issue_client_token h written name id token now held).1).1 in
        (authenticate_proxy h token i ≡ none) × (i.state ≡ some (record s { updated_at = later }))
  unfolding authenticate_proxy
  authenticate-revoke few free fresh =
      subst
        (λ r.
          (authenticate_with (h.token_hash token) (revoke_client_token written id later r.1).1.state
            ≡ none)
          × ((revoke_client_token written id later r.1).1.state
              ≡ some (record s { updated_at = later })))
        (sym (issue-written few))
        (rw (revoke-written fresh)
          (rw free.0 (authenticate-free (h.token_hash token) s.clients free.1), refl))
