-- ===== src/Formats/Signals.antt =====
-- The signals that a service may be stopped with, TerminationSignal of
-- horust/src/horust/formats/service.rs. `Signal` lists the names of nix's enum that the source uses.
use horust.Formats.Service.{
  TerminationSignal, hup, int, quit, ill, trap, abrt, bus, fpe, usr1, segv, usr2, alrm, term,
  stkflt, chld, cont, stop, tstp, ttin, ttou, urg, xcpu, xfsz, vtalrm, prof, winch, io, pwr, sys,
}

pub data Signal : Type 0 where
  sighup sigint sigquit sigill sigtrap sigabrt sigbus sigfpe sigusr1 sigsegv sigusr2 : Signal
  sigpipe sigalrm sigterm sigstkflt sigchld sigcont sigstop sigtstp sigttin sigttou sigurg : Signal
  sigxcpu sigxfsz sigvtalrm sigprof sigwinch sigio sigpwr sigsys sigkill : Signal

-- impl From<TerminationSignal> for Signal
unfoldable pub to_signal : TerminationSignal → Signal
to_signal hup = sighup
to_signal int = sigint
to_signal quit = sigquit
to_signal ill = sigill
to_signal trap = sigtrap
to_signal abrt = sigabrt
to_signal bus = sigbus
to_signal fpe = sigfpe
to_signal usr1 = sigusr1
to_signal segv = sigsegv
to_signal usr2 = sigusr2
to_signal TerminationSignal.pipe = sigpipe
to_signal alrm = sigalrm
to_signal term = sigterm
to_signal stkflt = sigstkflt
to_signal chld = sigchld
to_signal cont = sigcont
to_signal stop = sigstop
to_signal tstp = sigtstp
to_signal ttin = sigttin
to_signal ttou = sigttou
to_signal urg = sigurg
to_signal xcpu = sigxcpu
to_signal xfsz = sigxfsz
to_signal vtalrm = sigvtalrm
to_signal prof = sigprof
to_signal winch = sigwinch
to_signal io = sigio
to_signal pwr = sigpwr
to_signal sys = sigsys
