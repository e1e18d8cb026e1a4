-- ===== src/Qrtr/Transport/Sockets.antt =====
-- pkg/qmi/qrtr_transport_linux.go: who owns the data sockets.
use quectel_qmi_go.Common.{
  ℕ, ◌≤◌, ◌<◌, ◌≡◌, List, [], ◌∷◌, Bool, true, false, if◌then◌else◌, ◌==◌, none, some, lookup,
  delete, insert, ℕ_discrete, lookup-delete, lookup-insert, arith,
}
use quectel_qmi_go.Qrtr.Transport.{QrtrClient, close_socket, close_sockets}

-- Whether a socket is among the open ones.
unfoldable pub is_open : ℕ → List ℕ → Bool
is_open k [] = false
is_open k (x ∷ xs) = if x == k then true else is_open k xs

-- Every entry of the table holds an open socket and an identifier other than 0; every open socket is
-- held by an entry, and by one only.
pub record IsOwned (clients : List (ℕ × QrtrClient)) (sockets : List ℕ) : Type 0 where
  pub entries :
      (service : ℕ) (cl : QrtrClient)
      → lookup ℕ_discrete clients service ≡ some cl
      → (cl.service ≡ service)
        × ((is_open cl.sock sockets ≡ true) × ((1 ≤ cl.client_id) × (cl.client_id < 256)))
  pub holder :
      (k : ℕ)
      → is_open k sockets ≡ true
      → (service : ℕ) × (cl : QrtrClient) × ((lookup ℕ_discrete clients service ≡ some cl)
          × (cl.sock ≡ k))
  pub single :
      (s s' : ℕ) (cl cl' : QrtrClient)
      → lookup ℕ_discrete clients s ≡ some cl
      → lookup ℕ_discrete clients s' ≡ some cl'
      → cl.sock ≡ cl'.sock
      → s ≡ s'

is_open-close_socket :
    (s k : ℕ) (xs : List ℕ)
    → is_open k (close_socket s xs) ≡ (if s == k then false else is_open k xs)
unfolding is_open close_socket
is_open-close_socket s k [] = ground arith
is_open-close_socket s k (x ∷ xs) = ground (arith, is_open-close_socket s k xs)

-- What is open after all sockets of a table were closed was open before, and in no entry.
pub is_open-close_sockets :
    (clients : List (ℕ × QrtrClient)) (k : ℕ) (xs : List ℕ)
    → is_open k (close_sockets clients xs) ≡ true
    → (is_open k xs ≡ true)
      × ((s : ℕ) (cl : QrtrClient) → lookup ℕ_discrete clients s ≡ some cl → (cl.sock ≡ k) → ⊥)
unfolding close_sockets lookup
is_open-close_sockets [] k xs h = (h, λ s cl e. ground arith)
is_open-close_sockets ((service, c) ∷ clients) k xs h =
    let (before, others) = is_open-close_sockets clients k (close_socket c.sock xs) h in
    let e = is_open-close_socket c.sock k xs in
    (ground (arith, e, before), λ s cl el. ground (arith, e, before, others s cl))

pub IsOwned-close :
    (clients : List (ℕ × QrtrClient)) (xs : List ℕ)
    → IsOwned clients xs
    → IsOwned [] (close_sockets clients xs)
unfolding lookup
IsOwned-close clients xs v = record {
  entries = λ service cl e. ground arith;
  holder = λ k h.
      let (before, others) = is_open-close_sockets clients k xs h in
      let (service, cl, (e, ek)) = v.holder k before in absurd (others service cl e ek);
  single = λ s s' cl cl' e. ground arith;
}

module _ (clients : List (ℕ × QrtrClient)) (xs : List ℕ) (v : IsOwned clients xs) where
  pub IsOwned-drop :
      (s : ℕ) (old : QrtrClient)
      → lookup ℕ_discrete clients s ≡ some old
      → IsOwned (delete ℕ_discrete clients s) (close_socket old.sock xs)
  IsOwned-drop s old e = record {
    entries = λ service cl el. ground (
      arith,
      lookup-delete ℕ_discrete clients s service,
      v.entries service cl,
      is_open-close_socket old.sock cl.sock xs,
      v.single s service old cl,
    );
    holder = λ k h.
        let e' = is_open-close_socket old.sock k xs in
        let (service, cl, (el, ek)) = v.holder k (ground (arith, e', h)) in
        (service, cl, (ground (arith, lookup-delete ℕ_discrete clients s service, e', h), ek));
    single = λ s1 s2 c1 c2 e1 e2 ek. ground (
      arith,
      lookup-delete ℕ_discrete clients s s1,
      lookup-delete ℕ_discrete clients s s2,
      v.single s1 s2 c1 c2,
    );
  }

  pub IsOwned-add :
      (s : ℕ) (cl : QrtrClient)
      → lookup ℕ_discrete clients s ≡ none
      → is_open cl.sock xs ≡ false
      → cl.service ≡ s
      → 1 ≤ cl.client_id
      → cl.client_id < 256
      → IsOwned (insert ℕ_discrete clients s cl) (cl.sock ∷ xs)
  unfolding is_open
  IsOwned-add s cl e fresh es e1 e2 = record {
    entries = λ service c el.
        ground (arith, lookup-insert ℕ_discrete clients s service cl, v.entries service c);
    holder = λ k h. elim (ℕ_discrete cl.sock k) [
      | yes ek ↦ (s, cl, (ground (arith, lookup-insert ℕ_discrete clients s s cl), ek))
      | no ne ↦
          let (service, c, (el, ek)) = v.holder k (ground (arith, h)) in
          (service, c, (ground (arith, lookup-insert ℕ_discrete clients s service cl), ek))
    ];
    single = λ s1 s2 c1 c2 el1 el2 ek. ground (
      arith,
      lookup-insert ℕ_discrete clients s s1 cl,
      lookup-insert ℕ_discrete clients s s2 cl,
      v.single s1 s2 c1 c2,
      v.entries s1 c1,
      v.entries s2 c2,
    );
  }

-- Ownership is a matter of what the table and the open sockets answer.
IsOwned-same :
    (a b : List (ℕ × QrtrClient)) (xs ys : List ℕ)
    → ((s : ℕ) → lookup ℕ_discrete a s ≡ lookup ℕ_discrete b s)
    → ((k : ℕ) → is_open k xs ≡ is_open k ys)
    → IsOwned a xs
    → IsOwned b ys
IsOwned-same a b xs ys ea ex v = record {
  entries = λ s cl e. ground (arith, ea s, ex cl.sock, v.entries s cl);
  holder = λ k h.
      let (s, cl, (e, ek)) = v.holder k (ground (arith, ex k)) in
      (s, cl, (ground (arith, ea s), ek));
  single = λ s s' cl cl' e e' ek. ground (arith, ea s, ea s', v.single s s' cl cl');
}

-- A client enters in place of another: the other's socket is closed.
pub IsOwned-replace :
    (clients : List (ℕ × QrtrClient)) (xs : List ℕ)
    → IsOwned clients xs
    → (s : ℕ) (old cl : QrtrClient) → lookup ℕ_discrete clients s ≡ some old
    → is_open cl.sock xs ≡ false
    → cl.service ≡ s
    → 1 ≤ cl.client_id
    → cl.client_id < 256
    → IsOwned (insert ℕ_discrete clients s cl) (close_socket old.sock (cl.sock ∷ xs))
unfolding is_open
IsOwned-replace clients xs v s old cl e fresh es e1 e2 =
    let added =
      IsOwned-add (delete ℕ_discrete clients s) (close_socket old.sock xs)
        (IsOwned-drop clients xs v s old e) s cl
        (ground (arith, lookup-delete ℕ_discrete clients s s))
        (ground (arith, is_open-close_socket old.sock cl.sock xs)) es e1 e2 in
    IsOwned-same (insert ℕ_discrete (delete ℕ_discrete clients s) s cl)
      (insert ℕ_discrete clients s cl) (cl.sock ∷ close_socket old.sock xs)
      (close_socket old.sock (cl.sock ∷ xs))
      (λ j. ground (
        arith,
        lookup-insert ℕ_discrete (delete ℕ_discrete clients s) s j cl,
        lookup-insert ℕ_discrete clients s j cl,
        lookup-delete ℕ_discrete clients s j,
      ))
      (λ k. ground (
        arith,
        is_open-close_socket old.sock k xs,
        is_open-close_socket old.sock k (cl.sock ∷ xs),
        v.entries s old,
      ))
      added
