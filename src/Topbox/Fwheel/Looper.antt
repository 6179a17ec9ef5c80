-- ===== src/Topbox/Fwheel/Looper.antt =====
-- Fwheel_Looper: the thread that connects the filter wheel, and does nothing else.
use mmtao_old.Topbox.Link.{Link}
use mmtao_old.Topbox.Socket.Connect.{open_client, Attempt}
use mmtao_old.Topbox.Socket.Connect.Laws.{IsReached, open_client-connected, open_client_iff}
use mmtao_old.Base.{◌≡◌, true, List, [], ◌∷◌, ◌++◌, if◌then◌else◌, arith, ap}

-- An attempt, unless the wheel is connected.
unfoldable pub fwheel_connect : Attempt → Link → Link
fwheel_connect a s = if s.connected then s else (open_client a s).1

unfoldable pub fwheel_rounds : List Attempt → Link → Link
unfolding fwheel_connect
fwheel_rounds [] s = s
fwheel_rounds (a ∷ rest) s = fwheel_rounds rest (fwheel_connect a s)

-- Fwheel_Looper: one attempt to connect, and then the rounds until `continueRunning` is cleared.
unfoldable pub fwheel_looper : Attempt → List Attempt → Link → Link
unfolding fwheel_rounds fwheel_connect
fwheel_looper a attempts s = fwheel_rounds attempts (fwheel_connect a s)

stays_connected :
    (a : Attempt) (s : Link) → s.connected ≡ true → (fwheel_connect a s).connected ≡ true
unfolding fwheel_connect
stays_connected a s up = ground (arith, up)

gets_connected : (a : Attempt) (s : Link) → IsReached a → (fwheel_connect a s).connected ≡ true
unfolding fwheel_connect
gets_connected a s r =
    let opened = ap (λ t. t.connected) (open_client-connected a s ((open_client_iff a s).1 r)) in
    ground (arith, opened)

stay_connected :
    (attempts : List Attempt) (s : Link)
    → s.connected ≡ true
    → (fwheel_rounds attempts s).connected ≡ true
unfolding fwheel_rounds
stay_connected [] s up = up
stay_connected (a ∷ rest) s up = stay_connected rest (fwheel_connect a s) (stays_connected a s up)

rounds_reach :
    (before : List Attempt) (a : Attempt) (after : List Attempt) (s : Link)
    → IsReached a
    → (fwheel_rounds (before ++ a ∷ after) s).connected ≡ true
unfolding fwheel_rounds
rounds_reach [] a after s r = stay_connected after (fwheel_connect a s) (gets_connected a s r)
rounds_reach (b ∷ before) a after s r = rounds_reach before a after (fwheel_connect b s) r

-- However often it failed before, and whatever comes behind it, one round of Fwheel_Looper in which
-- the wheel can be reached leaves it connected for good, as long as nobody closes the connection.
fwheel_looper-reaches :
    (first : Attempt) (before : List Attempt) (a : Attempt) (after : List Attempt) (s : Link)
    → IsReached a
    → (fwheel_looper first (before ++ a ∷ after) s).connected ≡ true
unfolding fwheel_looper
fwheel_looper-reaches first before a after s r =
    rounds_reach before a after (fwheel_connect first s) r
