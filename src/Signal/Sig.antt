-- ===== src/Signal/Sig.antt =====
-- The signal numbers of kernel/include/zelda_posix.h.
use zelda_os.Prelude.{ℕ}

-- enum SIGNAL
abbrev pub hup : ℕ
hup = 1

abbrev pub int : ℕ
int = 2

abbrev pub quit : ℕ
quit = 3

abbrev pub ill : ℕ
ill = 4

abbrev pub fpe : ℕ
fpe = 8

abbrev pub kill : ℕ
kill = 9

abbrev pub segv : ℕ
segv = 11

abbrev pub sys : ℕ
sys = 12

abbrev pub pipe : ℕ
pipe = 13

abbrev pub alarm : ℕ
alarm = 14

abbrev pub term : ℕ
term = 15

abbrev pub usr1 : ℕ
usr1 = 16

abbrev pub usr2 : ℕ
usr2 = 17

abbrev pub stop_now : ℕ
stop_now = 23

abbrev pub tstp : ℕ
tstp = 24

abbrev pub cont : ℕ
cont = 25

abbrev pub ttin : ℕ
ttin = 26

abbrev pub ttou : ℕ
ttou = 27

abbrev pub max : ℕ
max = 28
