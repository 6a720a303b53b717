-- ===== src/Watcher/Lifecycle.antt =====
-- Starting and stopping the watcher of internal/watcher/watcher.go.
use vibe_local_go.Base.{◌≡◌, String, true, false, List, arith}
use vibe_local_go.Watcher.{FileWatcher, View, started, start, stopped, panicked, stop, polls}

start-started :
    (patterns : List String) (view : View) (fw fw' : FileWatcher)
    → start patterns view fw ≡ started fw'
    → (fw'.running ≡ true) × (fw'.stop_closed ≡ fw.stop_closed)
unfolding start
start-started patterns view fw fw' h = ground (arith, h)

stop-closed :
    (fw fw' : FileWatcher) → fw.running ≡ true → stop fw ≡ stopped fw' → fw'.stop_closed ≡ true
unfolding stop
stop-closed fw fw' r h = ground (arith, h, r)

-- A watcher that was started, stopped and started again does not poll, though both starts return
-- nil, and stopping it again panics.
restart-panics :
    (patterns patterns' : List String) (view view' : View) (fw fw₁ fw₂ fw₃ : FileWatcher)
    → start patterns view fw ≡ started fw₁
    → stop fw₁ ≡ stopped fw₂
    → start patterns' view' fw₂ ≡ started fw₃
    → (polls fw₃ ≡ false) × (stop fw₃ ≡ panicked)
unfolding stop
restart-panics patterns patterns' view view' fw fw₁ fw₂ fw₃ h k l =
    let first = start-started patterns view fw fw₁ h in
    let closed = stop-closed fw₁ fw₂ first.0 k in
    let second = start-started patterns' view' fw₂ fw₃ l in ground (arith, closed, second)
